-- ===== src/Core/Restore.antt =====
-- How the manager returns to the runtime before, where a hot swap fails
-- (`restorePreviousRuntimeAfterHotSwapFailure` of manager.go).
use rknno_vpn.Prelude.{String, true, false, Option, none, some, if◌then◌else◌, pos, concat}
use rknno_vpn.Core.State.{
  CoreConfig, NodeProfile, core_config, xray_config, core_pid_file, xray_pid_file, sigkill,
  renders_xray, spawns_xray, waits_for_port, removes, writes_pid, World, CoreRun, tell,
  record_stage,
}
use rknno_vpn.Core.Process.{
  ListenerWaitSpec, Spawned, unopened, unstarted, spawned, port_error, wait_runtime_listeners,
  spawn_sing_box, stop_xray_sidecar, signal_and_wait, kill_process_with_timeout, with_process,
  without_process, with_xray,
}
use rknno_vpn.Core.Launch.{xray_sidecar_socks_port, address_of, mark_running}

-- The rest of a function that gives an error as text.
abbrev pub and_restore :
    CoreRun × Option String → (CoreRun → CoreRun × Option String) → CoreRun × Option String
and_restore (r, none) k = k r
and_restore (r, some e) k = (r, some e)

module _ (w : World) where
  -- The sidecar of the runtime before.
  unfoldable pub restore_xray : NodeProfile → CoreRun → CoreRun × Option String
  unfolding stop_xray_sidecar
  restore_xray profile r =
      if w.requires_xray profile
      then elim (w.fault r.calls (renders_xray profile)) [
        | some f ↦
            (tell (renders_xray profile) r, some (concat "render rollback xray config: " f.text))
        | none ↦
            let r1 = tell (renders_xray profile) r in
            elim (w.fault r1.calls spawns_xray) [
              | some f ↦ (tell spawns_xray r1, some (concat "spawn rollback xray sidecar: " f.text))
              | none ↦
                  let proc = w.new_pid r1.calls spawns_xray in
                  let r2 =
                    tell (writes_pid xray_pid_file proc) (with_xray proc (tell spawns_xray r1)) in
                  let wait = waits_for_port (pos xray_sidecar_socks_port) 10 proc in
                  elim (w.fault r2.calls wait) [
                    | none ↦ (tell wait r2, none)
                    | some f ↦ (
                      (stop_xray_sidecar w (tell wait r2)).0,
                      some (concat "wait rollback xray sidecar: " f.text),
                    )
                  ]
            ]
      ]
      else (tell (removes xray_pid_file) (tell (removes xray_config) r), none)

  module _ (profile : NodeProfile) where
    unfoldable pub restored_after_wait :
        CoreRun → Option (ListenerWaitSpec × String) → CoreRun × Option String
    unfolding stop_xray_sidecar kill_process_with_timeout mark_running record_stage
    restored_after_wait r (some (spec, text)) = (
      (stop_xray_sidecar w (kill_process_with_timeout w 1200 r).0).0,
      some (port_error "wait rollback " spec (concat ": " text)),
    )
    restored_after_wait r none = (
      record_stage w false "rollback-old-runtime" "ok" "" (address_of profile) true
          (mark_running w profile r),
      none,
    )

    unfoldable pub restored_after_spawn : CoreRun → Spawned → CoreRun × Option String
    unfolding stop_xray_sidecar wait_runtime_listeners restored_after_wait
    restored_after_spawn r (unopened e) =
        ((stop_xray_sidecar w r).0, some (concat "spawn rollback sing-box: " e))
    restored_after_spawn r (unstarted e) =
        ((stop_xray_sidecar w r).0, some (concat "spawn rollback sing-box: " e))
    restored_after_spawn r (spawned proc) =
        let started = tell (writes_pid core_pid_file proc) (with_process proc r) in
        let waited = wait_runtime_listeners w false proc started in
        restored_after_wait waited.0 waited.1

    unfoldable pub restore_core : CoreRun → CoreRun × Option String
    unfolding spawn_sing_box restored_after_spawn
    restore_core r =
        let started = spawn_sing_box w core_config r in restored_after_spawn started.0 started.1

  unfoldable pub restore_previous_runtime :
      CoreConfig → NodeProfile → CoreRun → CoreRun × Option String
  unfolding signal_and_wait stop_xray_sidecar restore_xray restore_core
  restore_previous_runtime cfg profile r =
      let emptied = without_process (stop_xray_sidecar w (signal_and_wait w sigkill r)).0 in
      let configured : CoreRun = record emptied { core = record emptied.core { config = cfg } } in
      and_restore (restore_xray profile configured) (restore_core profile)
