-- ===== src/Core/Launch.antt =====
-- `Start` of the manager (manager.go), a stage after the other. The true that the stages of a report
-- are recorded with says that the report of the start is kept too.
use rknno_vpn.Prelude.{
  ℕ, ◌+◌, String, Bool, true, false, Option, none, some, if◌then◌else◌, is_empty, pos, decimal,
  concat,
}
use rknno_vpn.Recovery.Health.{CoreState, stopped, starting, running}
use rknno_vpn.Core.Report.{new_runtime_stage_report, finish_ok}
use rknno_vpn.Core.State.{
  NodeProfile, core_config, xray_config, core_pid_file, xray_pid_file, manual_flag, Signal, sigterm,
  sigkill, renders_core, renders_xray, checks_core, checks_xray, prepares_core, opens_core_log,
  spawns_core, spawns_xray, waits_for_port, verifies_owners, applies_rules, verifies_rules,
  cleans_rules, removes, writes_pid, marks_active, Fault, World, RuntimeError, CoreRun, Outcome,
  continued, failed, and_then, tell, try_call, record_stage, fail_stage, clone_config_for_runtime,
}
use rknno_vpn.Core.Process.{
  port_error, wait_runtime_listeners, stop_xray_sidecar, signal_and_wait, with_process, with_xray,
}

pub data StartError : Type 0 where
  already : CoreState → StartError
  start_failed : RuntimeError → StartError

abbrev pub in_state : CoreState → CoreRun → CoreRun
in_state s r = record r { core = record r.core { state = s } }

-- `XraySidecarSocksPort` of daemon/internal/config/config.go.
abbrev pub xray_sidecar_socks_port : ℕ
xray_sidecar_socks_port = 10859

-- The code of the error of the rules, or the one given.
abbrev pub net_code : String → Fault → String
net_code code f = if is_empty f.code then code else f.code

abbrev pub start_result : Outcome → CoreRun × Option StartError
start_result (continued r) = (r, none)
start_result (failed r e) = (r, some (start_failed e))

abbrev pub is_up : CoreState → Bool
is_up running = true
is_up starting = true
is_up _ = false

abbrev pub address_of : NodeProfile → String
address_of profile = concat profile.protocol (concat "://" profile.address)

module _ (w : World) where
  -- `rollbackStarted`; the flag is `cleanupNetstack || netstackApplied`.
  unfoldable pub rollback_started : Signal → Bool → CoreRun → CoreRun
  unfolding signal_and_wait stop_xray_sidecar
  rollback_started signal cleanup r =
      let cleaned = if cleanup then tell cleans_rules r else r in
      let ended = signal_and_wait w signal cleaned in
      let forgotten : CoreRun = record ended {
        core = record ended.core {
          process = none;
          exit_ch = none;
          pid = 0;
          active_profile = "";
          running_config = none;
          running_profile = none;
          started_at = 0;
          state = stopped;
        };
      } in
      (stop_xray_sidecar w (tell (removes core_pid_file) forgotten)).0

  -- A failure before sing-box is started.
  unfoldable pub halt : String → String → String → Fault → CoreRun → Outcome
  halt name layer code f r = fail_stage w true name layer code f.text false (in_state stopped r)

  -- A failure after the Xray sidecar was started and before sing-box was.
  unfoldable pub halt_with_xray : String → String → String → Bool → Fault → CoreRun → Outcome
  unfolding stop_xray_sidecar
  halt_with_xray name layer code rolled f r =
      fail_stage w true name layer code f.text rolled (in_state stopped (stop_xray_sidecar w r).0)

  -- A failure after sing-box was started.
  unfoldable pub roll_back : Signal → Bool → String → String → String → String → CoreRun → Outcome
  unfolding rollback_started
  roll_back signal cleanup name layer code text r =
      fail_stage w true name layer code text true (rollback_started signal cleanup r)

  abbrev pub passed : String → String → CoreRun → CoreRun
  passed name detail r = record_stage w true name "ok" "" detail false r

  module _ (profile : NodeProfile) where
    -- The optional configuration of the sidecar: `prepareXraySidecar` and `checkXrayConfig`.
    unfoldable pub start_xray_config : CoreRun → Outcome
    unfolding record_stage
    start_xray_config r =
        if w.requires_xray profile
        then try_call w (renders_xray profile)
            (halt "render-xray-config" "render xray config" "CONFIG_RENDER_FAILED")
            (λ r1.
              try_call w checks_xray
                (halt "xray-config-check" "xray config check" "CONFIG_CHECK_FAILED")
                (λ r2. (continued (passed "xray-config-check" (w.file_path xray_config) r2)))
                (passed "render-xray-config" (w.file_path xray_config) r1))
            r
        else (continued (tell (removes xray_config) r))

    unfoldable pub start_config : CoreRun → Outcome
    unfolding record_stage
    start_config r =
        try_call w (renders_core r.core.config profile core_config)
          (halt "render-config" "render config" "CONFIG_RENDER_FAILED")
          (λ r1.
            try_call w (checks_core core_config)
              (halt "config-check" "config check" "CONFIG_CHECK_FAILED")
              (λ r2. (continued (passed "config-check" (w.file_path core_config) r2)))
              (passed "render-config" (w.file_path core_config) r1))
          r

    unfoldable pub start_xray : CoreRun → Outcome
    unfolding record_stage
    start_xray r =
        if w.requires_xray profile
        then try_call w spawns_xray
            (halt "spawn-xray-sidecar" "spawn xray sidecar" "XRAY_SIDECAR_SPAWN_FAILED")
            (λ r1.
              let proc = w.new_pid r.calls spawns_xray in
              try_call w (waits_for_port (pos xray_sidecar_socks_port) 10 proc)
                (halt_with_xray "wait-xray-sidecar" "wait xray sidecar socks port"
                  "XRAY_SIDECAR_PORT_DOWN" true)
                (λ r2.
                  (continued (
                    passed "wait-xray-sidecar" (concat "port=" (decimal xray_sidecar_socks_port))
                      r2)))
                (passed "spawn-xray-sidecar" (concat "pid=" (decimal proc))
                  (tell (writes_pid xray_pid_file proc) (with_xray proc r1))))
            r
        else continued r

    unfoldable pub start_core : CoreRun → Outcome
    unfolding record_stage
    start_core r =
        try_call w prepares_core
          (halt_with_xray "spawn-core" "prepare sing-box" "CORE_SPAWN_FAILED" false)
          (λ r1.
            try_call w opens_core_log
              (halt_with_xray "open-core-log" "open sing-box log" "CORE_LOG_OPEN_FAILED" false)
              (λ r2.
                let opened = passed "open-core-log" w.log_path r2 in
                let proc = w.new_pid opened.calls (spawns_core core_config) in
                try_call w (spawns_core core_config)
                  (halt_with_xray "spawn-core" "spawn sing-box" "CORE_SPAWN_FAILED" false)
                  (λ r3.
                    (continued (
                      tell (writes_pid core_pid_file proc) (
                        passed "spawn-core" (concat "pid=" (decimal proc))
                          (with_process proc r3)))))
                  opened)
              r1)
          r

    unfoldable pub start_listeners : CoreRun → Outcome
    unfolding wait_runtime_listeners
    start_listeners r =
        let waited = wait_runtime_listeners w true r.core.pid r in
        elim waited.1 [
          | none ↦ continued waited.0
          | some (spec, text) ↦
              roll_back sigkill false spec.stage spec.layer spec.code
                (port_error "" spec (concat " not ready: " text)) waited.0
        ]

    unfoldable pub start_rules : CoreRun → Outcome
    unfolding record_stage
    start_rules r =
        try_call w verifies_owners
          (λ f.
            roll_back sigterm false "verify-chain-proxy-owners" "verify local proxy owners"
              "LOCAL_PROXY_OWNER_MISMATCH" f.text)
          (λ r1.
            let owned = passed "verify-chain-proxy-owners" "" r1 in
            let applied = concat "steps=" (decimal (w.steps owned.calls applies_rules)) in
            try_call w applies_rules
              (λ f.
                roll_back sigterm true "netstack-apply" "netstack apply"
                  (net_code "RULES_NOT_APPLIED" f) f.text)
              (λ r2.
                let ruled = passed "netstack-apply" applied r2 in
                let verified = concat "steps=" (decimal (w.steps ruled.calls verifies_rules)) in
                try_call w verifies_rules
                  (λ f.
                    roll_back sigterm true "netstack-verify" "netstack verify"
                      (net_code "NETSTACK_VERIFY_FAILED" f) f.text)
                  (λ r3. (continued (passed "netstack-verify" verified r3))) ruled)
              owned)
          r

    -- The fields of a runtime that serves the profile.
    unfoldable pub mark_running : CoreRun → CoreRun
    unfolding clone_config_for_runtime
    mark_running r = tell marks_active (record r {
      ticks = r.ticks + 1;
      core = record r.core {
        active_profile = address_of profile;
        running_config = clone_config_for_runtime w (some r.core.config);
        running_profile = some profile;
        started_at = w.now r.ticks;
        state = running;
      };
    })

    -- The end of a start, with `finishStartReport`.
    unfoldable pub start_commit : CoreRun → Outcome
    unfolding record_stage mark_running
    start_commit r =
        let committed =
          passed "commit-state" (address_of profile)
            (tell (removes manual_flag) (mark_running r)) in
        let report = finish_ok (w.now committed.ticks) committed.report in
        (continued (record committed {
          report = report;
          ticks = committed.ticks + 1;
          core = record committed.core { last_start_report = report; last_runtime_report = report };
        }))

    unfoldable pub start_stages : CoreRun → Outcome
    unfolding start_xray_config start_config start_xray start_core start_listeners start_rules
        start_commit
    start_stages r = and_then (start_xray_config r) (λ r1. and_then (start_config r1) (λ r2.
        and_then (start_xray r2) (λ r3.
          and_then (start_core r3)
            (λ r4. and_then (start_listeners r4) (λ r5. and_then (start_rules r5) start_commit)))))

    -- The state with its new report, in which the stages run.
    unfoldable pub begin_start : CoreRun → CoreRun
    begin_start r =
        let report = new_runtime_stage_report (w.now r.ticks) "start" in
        record r {
          report = report;
          ticks = r.ticks + 1;
          core = record r.core { last_start_report = report; state = starting };
        }

    unfoldable pub start : CoreRun → CoreRun × Option StartError
    unfolding begin_start start_stages
    start r =
        if is_up r.core.state
        then (r, some (already r.core.state))
        else start_result (start_stages (begin_start r))
