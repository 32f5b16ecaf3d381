-- ===== src/Core/Process.antt =====
-- Processes: how they are started, waited for and stopped (manager.go, xray_sidecar.go). A wait for a
-- port, the search for a process that an earlier daemon left, and the start of Xray are one call each.
use rknno_vpn.Prelude.{
  ℕ, zero, suc, String, Bool, true, false, List, [], ◌∷◌, ◌++◌, Option, none, some, if◌then◌else◌,
  is_some, ℤ, pos, negsuc, itoa, decimal, concat,
}
use rknno_vpn.Core.State.{
  CoreConfig, CoreFile, xray_pid_file, Signal, sigterm, sigkill, signal_zero, prepares_core,
  opens_core_log, spawns_core, waits_for_port, signals, awaits_exit, kills_tracked_xray, removes,
  Fault, World, CoreRun, tell, ask, record_stage,
}

abbrev pub is_positive_ℤ : ℤ → Bool
is_positive_ℤ (pos zero) = false
is_positive_ℤ (pos (suc n)) = true
is_positive_ℤ (negsuc n) = false

unfoldable pub default_port : ℤ → ℕ → ℤ
default_port value fallback = if is_positive_ℤ value then value else pos fallback

-- A port to wait for; the time is in seconds.
pub record ListenerWaitSpec : Type 0 where
  pub stage : String
  pub layer : String
  pub code : String
  pub label : String
  pub port : ℤ
  pub timeout : ℕ

abbrev optional_wait : String → String → String → String → ℤ → List ListenerWaitSpec
optional_wait stage layer code label port =
    if is_positive_ℤ port
    then record {
      stage = stage;
      layer = layer;
      code = code;
      label = label;
      port = port;
      timeout = 10;
    }
      ∷ []
    else []

unfoldable pub runtime_listener_waits : CoreConfig → List ListenerWaitSpec
unfolding default_port
runtime_listener_waits cfg =
    (record {
      stage = "wait-tproxy";
      layer = "wait tproxy port";
      code = "TPROXY_PORT_DOWN";
      label = "TPROXY";
      port = default_port cfg.tproxy_port 10853;
      timeout = 30;
    }
      ∷ record {
        stage = "wait-dns";
        layer = "wait dns port";
        code = "DNS_LISTENER_DOWN";
        label = "DNS";
        port = default_port cfg.dns_port 10856;
        timeout = 10;
      }
      ∷ [])
    ++ (optional_wait "wait-api" "wait API port" "API_PORT_DOWN" "API" cfg.api_port
        ++ (optional_wait "wait-socks-helper" "wait SOCKS helper port" "SOCKS_HELPER_DOWN"
              "SOCKS helper" cfg.socks_port
            ++ optional_wait "wait-http-helper" "wait HTTP helper port" "HTTP_HELPER_DOWN"
                "HTTP helper" cfg.http_port))

-- `fmt.Errorf("%s port %d not ready: %w", …)` and the like.
abbrev pub port_error : String → ListenerWaitSpec → String → String
port_error before spec rest =
    concat before (concat spec.label (concat " port " (concat (itoa spec.port) rest)))

-- What became of `spawnSingBox`: the log file was not opened, the process was not started, or it was.
pub data Spawned : Type 0 where
  unopened unstarted : String → Spawned
  spawned : ℕ → Spawned

module _ (w : World) where
  -- The part of `waitRuntimeListeners` after the list is made: the port that did not open, with the
  -- error, or none. The process is that of the exit channel.
  unfoldable pub wait_ports :
      Bool → ℕ → List ListenerWaitSpec → CoreRun → CoreRun × Option (ListenerWaitSpec × String)
  unfolding record_stage
  wait_ports starts pid [] r = (r, none)
  wait_ports starts pid (spec ∷ specs) r =
      let call = waits_for_port spec.port spec.timeout pid in
      let opened =
        record_stage w starts spec.stage "ok" "" (concat "port=" (itoa spec.port)) false
          (tell call r) in
      let rest = wait_ports starts pid specs opened in
      elim (w.fault r.calls call) [ none ↦ rest | some f ↦ (tell call r, some (spec, f.text)) ]

  unfoldable pub wait_runtime_listeners :
      Bool → ℕ → CoreRun → CoreRun × Option (ListenerWaitSpec × String)
  unfolding wait_ports
  wait_runtime_listeners starts pid r =
      wait_ports starts pid (runtime_listener_waits r.core.config) r

  -- The end of a process, with the grace in milliseconds: `killProcessWithTimeout` and
  -- `killProcessWithWait` after their first checks.
  unfoldable pub end_process : ℕ → ℕ → CoreRun → CoreRun × Option String
  end_process pid grace r =
      let r1 = tell (signals sigterm pid) r in
      elim (w.fault r.calls (signals sigterm pid)) [
        | some f ↦
            let r2 = tell (awaits_exit pid 500) r1 in
            if w.exits r1.calls (awaits_exit pid 500) then (r2, none) else (
              tell (signals signal_zero pid) r2,
              elim (w.fault r2.calls (signals signal_zero pid)) [
                | none ↦ some (
                    concat "pid " (
                      concat (decimal pid)
                        (concat " still appears alive after SIGTERM failed: " f.text)))
                | some g ↦ none
              ],
            )
        | none ↦
            let r2 = tell (awaits_exit pid grace) r1 in
            if w.exits r1.calls (awaits_exit pid grace)
            then (r2, none)
            else let r3 = tell (signals sigkill pid) r2 in
              elim (w.fault r2.calls (signals sigkill pid)) [
                | some f ↦
                    (r3, some (concat "SIGKILL pid " (concat (decimal pid) (concat ": " f.text))))
                | none ↦ (
                  tell (awaits_exit pid 2000) r3,
                  if w.exits r3.calls (awaits_exit pid 2000)
                      then none
                      else some
                          (concat "pid " (concat (decimal pid) " did not exit after SIGKILL")),
                )
              ]
      ]

  abbrev pub unwatched : ℕ → String
  unwatched pid = concat "pid " (concat (decimal pid) " has no tracked process wait channel")

  -- The grace is in milliseconds; 0 stands for 5 seconds.
  unfoldable pub kill_process_with_timeout : ℕ → CoreRun → CoreRun × Option String
  unfolding end_process
  kill_process_with_timeout grace r = elim r.core.process [
    | none ↦ (r, none)
    | some proc ↦ elim r.core.exit_ch [
      | none ↦ (r, some (unwatched r.core.pid))
      | some ch ↦ end_process proc (elim grace [ zero ↦ 5000 | suc n ↦ suc n ]) r
    ]
  ]

  unfoldable pub kill_process : CoreRun → CoreRun × Option String
  unfolding kill_process_with_timeout
  kill_process r = kill_process_with_timeout 5000 r

  unfoldable pub kill_process_with_wait : Option ℕ → Option ℕ → CoreRun → CoreRun × Option String
  unfolding end_process
  kill_process_with_wait none ch r = (r, none)
  kill_process_with_wait (some proc) none r = (r, some (unwatched proc))
  kill_process_with_wait (some proc) (some ch) r = end_process proc 5000 r

  -- The text of the error of a call.
  unfoldable pub try_text : CoreRun × Option Fault → CoreRun × Option String
  try_text (r, f) = (r, elim f [ none ↦ none | some g ↦ some g.text ])

  abbrev forget_xray : CoreRun → CoreRun
  forget_xray r =
      tell (removes xray_pid_file) (record r {
        core = record r.core { xray_process = none; xray_exit_ch = none; xray_pid = 0 };
      })

  unfoldable pub stop_xray_sidecar : CoreRun → CoreRun × Option String
  unfolding kill_process_with_wait try_text ask
  stop_xray_sidecar r =
      let ended =
        if is_some r.core.xray_process
        then kill_process_with_wait r.core.xray_process r.core.xray_exit_ch r
        else try_text (ask w kills_tracked_xray r) in
      (forget_xray ended.0, ended.1)

  -- `spawnSingBox`; the process is not yet a part of the state.
  unfoldable pub spawn_sing_box : CoreFile → CoreRun → CoreRun × Spawned
  spawn_sing_box file r =
      let r1 = tell prepares_core r in
      let r2 = tell opens_core_log r1 in
      elim (w.fault r.calls prepares_core) [
        | some f ↦ (r1, unopened f.text)
        | none ↦ elim (w.fault r1.calls opens_core_log) [
          | some f ↦ (r2, unopened f.text)
          | none ↦ elim (w.fault r2.calls (spawns_core file)) [
            | some f ↦ (tell (spawns_core file) r2, unstarted f.text)
            | none ↦ (tell (spawns_core file) r2, spawned (w.new_pid r2.calls (spawns_core file)))
          ]
        ]
      ]

  -- A process that is told to end by a signal, and waited for two seconds at most.
  unfoldable pub signal_and_wait : Signal → CoreRun → CoreRun
  signal_and_wait signal r = elim r.core.process [
    | none ↦ r
    | some proc ↦ tell (awaits_exit proc 2000) (tell (signals signal proc) r)
  ]

-- `m.process`, `m.exitCh` and `m.pid` of a process that was started.
abbrev pub with_process : ℕ → CoreRun → CoreRun
with_process proc r = record r {
  core = record r.core { process = some proc; exit_ch = some proc; pid = proc };
}

abbrev pub without_process : CoreRun → CoreRun
without_process r = record r { core = record r.core { process = none; exit_ch = none; pid = 0 } }

abbrev pub with_xray : ℕ → CoreRun → CoreRun
with_xray proc r = record r {
  core = record r.core { xray_process = some proc; xray_exit_ch = some proc; xray_pid = proc };
}
