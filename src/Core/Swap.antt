-- ===== src/Core/Swap.antt =====
-- `HotSwap` of the manager (manager.go). The rules stay as they are; a stage is recorded in the
-- runtime report only, which the false says.
use rknno_vpn.Prelude.{
  ◌+◌, String, true, false, Option, none, some, if◌then◌else◌, pos, decimal, concat,
}
use rknno_vpn.Recovery.Health.{starting, degraded}
use rknno_vpn.Core.Report.{new_runtime_stage_report, finish_ok}
use rknno_vpn.Core.State.{
  CoreConfig, NodeProfile, core_config, swap_config, xray_config, core_pid_file, xray_pid_file,
  active_file, manual_flag, sigkill, renders_core, renders_xray, checks_core, checks_xray,
  spawns_xray, waits_for_port, cleans_rules, removes, writes_pid, renames, Fault, World, CoreRun,
  Outcome, continued, failed, and_then, tell, try_call, record_stage, fail_stage,
  clone_config_for_runtime, runtime_preserved_error_with_report,
}
use rknno_vpn.Core.Process.{
  unopened, unstarted, spawned, port_error, wait_runtime_listeners, spawn_sing_box,
  stop_xray_sidecar, signal_and_wait, kill_process_with_timeout, with_process, without_process,
  with_xray,
}
use rknno_vpn.Core.Launch.{in_state, xray_sidecar_socks_port, address_of, mark_running}
use rknno_vpn.Core.Restore.{restore_previous_runtime}

module _ (w : World) where
  abbrev pub swap_passed : String → String → CoreRun → CoreRun
  swap_passed name detail r = record_stage w false name "ok" "" detail false r

  -- The closure `cleanupAndDegrade`: none where the runtime before is back, else the cause.
  unfoldable pub degrade : String → CoreRun → CoreRun × Option String
  unfolding signal_and_wait stop_xray_sidecar
  degrade cause r =
      let ended = signal_and_wait w sigkill (tell cleans_rules r) in
      let forgotten : CoreRun = record ended {
        core = record ended.core {
          process = none;
          exit_ch = none;
          pid = 0;
          active_profile = "";
          running_config = none;
          running_profile = none;
          started_at = 0;
          state = degraded;
        };
      } in
      (
        tell (removes active_file) (stop_xray_sidecar w (tell (removes core_pid_file) forgotten)).0,
        some cause,
      )

  unfoldable pub degrade_unless_restored :
      String → CoreRun × Option String → CoreRun × Option String
  unfolding degrade
  degrade_unless_restored cause (r, none) = (r, none)
  degrade_unless_restored cause (r, some e) =
      degrade (concat cause (concat "; rollback failed: " e)) r

  unfoldable pub cleanup_and_degrade :
      Option CoreConfig → Option NodeProfile → String → CoreRun → CoreRun × Option String
  unfolding restore_previous_runtime degrade degrade_unless_restored
  cleanup_and_degrade (some cfg) (some profile) cause r =
      degrade_unless_restored cause (restore_previous_runtime w cfg profile r)
  cleanup_and_degrade (some cfg) none cause r = degrade cause r
  cleanup_and_degrade none profile cause r = degrade cause r

  -- The error that a caller of `cleanupAndDegrade` returns.
  abbrev pub give_up : String → String → String → String → CoreRun × Option String → Outcome
  give_up stage layer code err (r, none) =
      failed r (runtime_preserved_error_with_report layer code err r.report)
  give_up stage layer code err (r, some cause) = fail_stage w false stage layer code cause true r

  -- The configuration and the profile of the runtime before, and the new profile.
  module _ (cfg : Option CoreConfig) (old : Option NodeProfile) (profile : NodeProfile) where
    -- A failure after the old process was stopped.
    unfoldable pub fall_back : String → String → String → String → CoreRun → Outcome
    unfolding cleanup_and_degrade
    fall_back stage layer code err r =
        give_up stage layer code err (cleanup_and_degrade cfg old err r)

    -- A failure before it.
    unfoldable pub refuse : String → String → String → Fault → CoreRun → Outcome
    refuse stage layer code f r = fail_stage w false stage layer code f.text false r

    unfoldable pub swap_xray_config : CoreRun → Outcome
    unfolding record_stage
    swap_xray_config r =
        if w.requires_xray profile
        then try_call w (renders_xray profile)
            (refuse "render-xray-config" "hot-swap render xray config" "CONFIG_RENDER_FAILED")
            (λ r1.
              try_call w checks_xray
                (refuse "xray-config-check" "hot-swap xray config check" "CONFIG_CHECK_FAILED")
                (λ r2. (continued (swap_passed "xray-config-check" (w.file_path xray_config) r2)))
                (swap_passed "render-xray-config" (w.file_path xray_config) r1))
            r
        else (continued (tell (removes xray_config) r))

    unfoldable pub swap_rendered : CoreRun → Outcome
    unfolding record_stage
    swap_rendered r =
        try_call w (renders_core r.core.config profile swap_config)
          (refuse "render-config" "hot-swap render" "CONFIG_RENDER_FAILED")
          (λ r1.
            try_call w (checks_core swap_config)
              (refuse "config-check" "hot-swap config check" "CONFIG_CHECK_FAILED")
              (λ r2. (continued (swap_passed "config-check" (w.file_path swap_config) r2)))
              (swap_passed "render-config" (w.file_path swap_config) r1))
          r

    abbrev pub after_stop : CoreRun × Option String → Outcome
    after_stop (r, some e) =
        fail_stage w false "stop-old-core" "hot-swap kill old" "CORE_STOP_FAILED" e false r
    after_stop (r, none) =
        (continued (in_state starting (swap_passed "stop-old-core" "" (without_process r))))

    unfoldable pub swap_stop : CoreRun → Outcome
    unfolding kill_process_with_timeout record_stage
    swap_stop r = elim r.core.process [
      | some proc ↦ after_stop (kill_process_with_timeout w 1200 r)
      | none ↦
          (continued (
            in_state starting (
              record_stage w false "stop-old-core" "already_clean" "" "no tracked process" false
                r)))
    ]

    abbrev pub after_xray_stop : (CoreRun → Outcome) → CoreRun × Option String → Outcome
    after_xray_stop k (r, none) = k r
    after_xray_stop k (r, some e) =
        fall_back "stop-old-xray-sidecar" "hot-swap stop old xray sidecar"
          "XRAY_SIDECAR_STOP_FAILED" e r

    unfoldable pub swap_spawn_xray : CoreRun → Outcome
    unfolding record_stage
    swap_spawn_xray r =
        try_call w spawns_xray
          (λ f.
            fall_back "spawn-xray-sidecar" "hot-swap spawn xray sidecar" "XRAY_SIDECAR_SPAWN_FAILED"
              f.text)
          (λ r1.
            let proc = w.new_pid r.calls spawns_xray in
            try_call w (waits_for_port (pos xray_sidecar_socks_port) 10 proc)
              (λ f.
                fall_back "wait-xray-sidecar" "hot-swap wait xray sidecar socks port"
                  "XRAY_SIDECAR_PORT_DOWN" f.text)
              (λ r2.
                (continued (
                  swap_passed "wait-xray-sidecar" (concat "port=" (decimal xray_sidecar_socks_port))
                    r2)))
              (swap_passed "spawn-xray-sidecar" (concat "pid=" (decimal proc))
                (tell (writes_pid xray_pid_file proc) (with_xray proc r1))))
          r

    unfoldable pub swap_xray : CoreRun → Outcome
    unfolding stop_xray_sidecar swap_spawn_xray
    swap_xray r =
        after_xray_stop
          (λ r1. if w.requires_xray profile then swap_spawn_xray r1 else (continued (r1)))
          (stop_xray_sidecar w r)

    unfoldable pub swap_spawn : CoreRun → Outcome
    unfolding spawn_sing_box record_stage
    swap_spawn r =
        let started = spawn_sing_box w swap_config r in
        elim started.1 [
          | unopened e ↦
              fall_back "open-core-log" "hot-swap open sing-box log" "CORE_LOG_OPEN_FAILED" e
                started.0
          | unstarted e ↦ fall_back "spawn-core" "hot-swap spawn" "CORE_SPAWN_FAILED" e started.0
          | spawned proc ↦
              (continued (
                tell (writes_pid core_pid_file proc) (
                  swap_passed "spawn-core" (concat "pid=" (decimal proc))
                    (with_process proc started.0))))
        ]

    unfoldable pub swap_listeners : CoreRun → Outcome
    unfolding wait_runtime_listeners
    swap_listeners r =
        let waited = wait_runtime_listeners w false r.core.pid r in
        elim waited.1 [
          | none ↦ continued waited.0
          | some (spec, text) ↦
              fall_back spec.stage (concat "hot-swap " spec.layer) spec.code
                (port_error "" spec (concat " not ready: " text)) waited.0
        ]

    unfoldable pub swap_commit : CoreRun → Outcome
    unfolding record_stage mark_running
    swap_commit r =
        try_call w (renames swap_config core_config)
          (λ f. fall_back "commit-config" "hot-swap commit config" "CONFIG_RENDER_FAILED" f.text)
          (λ r1.
            let marked =
              mark_running w profile (swap_passed "commit-config" (w.file_path core_config) r1) in
            let committed =
              swap_passed "commit-state" (address_of profile) (tell (removes manual_flag) marked) in
            let report = finish_ok (w.now committed.ticks) committed.report in
            (continued (record committed {
              report = report;
              ticks = committed.ticks + 1;
              core = record committed.core { last_runtime_report = report };
            })))
          r

    unfoldable pub swap_stages : CoreRun → Outcome
    unfolding swap_rendered swap_stop swap_xray swap_spawn swap_listeners swap_commit
    swap_stages r = and_then (swap_rendered r) (λ r1. and_then (swap_stop r1) (λ r2.
        and_then (swap_xray r2)
          (λ r3. and_then (swap_spawn r3) (λ r4. and_then (swap_listeners r4) swap_commit))))

    -- `defer os.Remove(newConfigPath)`.
    abbrev pub remove_at_end : Outcome → Outcome
    remove_at_end (continued r) = continued (tell (removes swap_config) r)
    remove_at_end (failed r e) = failed (tell (removes swap_config) r) e

    unfoldable pub swap_body : CoreRun → Outcome
    unfolding swap_xray_config swap_stages
    swap_body r =
        and_then (swap_xray_config r)
          (λ r1. remove_at_end (swap_stages (tell (removes swap_config) r1)))

  unfoldable pub begin_swap : CoreRun → CoreRun
  begin_swap r =
      let report = new_runtime_stage_report (w.now r.ticks) "hot-swap" in
      record r {
        report = report;
        ticks = r.ticks + 1;
        core = record r.core { last_runtime_report = report };
      }

  unfoldable pub hot_swap : NodeProfile → CoreRun → Outcome
  unfolding begin_swap swap_body clone_config_for_runtime
  hot_swap profile r =
      swap_body (clone_config_for_runtime w r.core.running_config) r.core.running_profile profile
        (begin_swap r)
