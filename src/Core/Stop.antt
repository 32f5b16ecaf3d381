-- ===== src/Core/Stop.antt =====
-- `Stop` of the manager (manager.go): the rules go before the process.
use rknno_vpn.Prelude.{
  Bool, true, false, not, ◌&&◌, String, Option, none, some, if◌then◌else◌, is_some,
}
use rknno_vpn.Recovery.Health.{CoreState, stopped, stopping}
use rknno_vpn.Core.State.{
  core_pid_file, xray_pid_file, active_file, cleans_rules, kills_tracked_core, removes, World,
  CoreRun, tell, ask, cleared_core,
}
use rknno_vpn.Core.Process.{kill_process, try_text, stop_xray_sidecar}

-- `firstErr`.
abbrev pub first_stop_error : Option String → Option String → Option String
first_stop_error none e = e
first_stop_error (some e) _ = some e

abbrev is_stopped : CoreState → Bool
is_stopped stopped = true
is_stopped _ = false

module _ (w : World) where
  -- The tracked process, or one that an earlier daemon left.
  unfoldable pub end_core : CoreRun → CoreRun × Option String
  unfolding ask try_text kill_process
  end_core r =
      if is_some r.core.process then kill_process w r else try_text w (ask w kills_tracked_core r)

  unfoldable pub tear_down : CoreRun → CoreRun × Option String
  unfolding ask try_text end_core stop_xray_sidecar cleared_core
  tear_down r =
      let marked : CoreRun = record r { core = record r.core { state = stopping } } in
      let cleaned = try_text w (ask w cleans_rules (tell (removes active_file) marked)) in
      let killed = end_core cleaned.0 in
      let ended = stop_xray_sidecar w killed.0 in
      (
        record (tell (removes xray_pid_file) (tell (removes core_pid_file) ended.0)) {
          core = cleared_core stopped ended.0.core;
        },
        first_stop_error cleaned.1 (first_stop_error killed.1 ended.1),
      )

  unfoldable pub stop_with_mode : Bool → CoreRun → CoreRun × Option String
  unfolding tear_down
  stop_with_mode force r = if is_stopped r.core.state && not force then (r, none) else tear_down r

  -- `Stop` and `RescueReset`.
  unfoldable pub stop : CoreRun → CoreRun × Option String
  unfolding stop_with_mode
  stop r = stop_with_mode true r
