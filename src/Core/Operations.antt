-- ===== src/Core/Operations.antt =====
-- The other operations of the manager (manager.go): they read it, or set some of its fields.
use rknno_vpn.Prelude.{ℕ, String, Option, none, some, if◌then◌else◌, concat, is_empty}
use rknno_vpn.Recovery.Health.{CoreState, stopped}
use rknno_vpn.Core.Report.{RuntimeStageReport, empty_report}
use rknno_vpn.Core.State.{
  CoreConfig, NodeProfile, CoreManager, RuntimeError, World, state_name, clone_config_for_runtime,
}
use rknno_vpn.Core.Launch.{address_of}

unfoldable pub new_core_manager : CoreConfig → CoreManager
new_core_manager cfg = record {
  config = cfg;
  process = none;
  exit_ch = none;
  pid = 0;
  xray_process = none;
  xray_exit_ch = none;
  xray_pid = 0;
  state = stopped;
  active_profile = "";
  running_config = none;
  running_profile = none;
  started_at = 0;
  last_start_report = empty_report;
  last_runtime_report = empty_report;
}

set_config : CoreConfig → CoreManager → CoreManager
set_config cfg m = record m { config = cfg }

set_state : CoreState → CoreManager → CoreManager
set_state s m = record m { state = s }

mark_selector_active : World → Option NodeProfile → CoreManager → CoreManager
unfolding clone_config_for_runtime
mark_selector_active w none m = m
mark_selector_active w (some profile) m = record m {
  active_profile = address_of profile;
  running_config = clone_config_for_runtime w (some m.config);
  running_profile = some profile;
}

-- `StatusInfo`, but for the text of the time that the core is up.
record StatusInfo : Type 0 where
  state : String
  pid : ℕ
  active_profile : String
  started_at : ℕ
  start_report : RuntimeStageReport
  runtime_report : RuntimeStageReport

status_info : CoreManager → StatusInfo
unfolding state_name
status_info m = record {
  state = state_name m.state;
  pid = m.pid;
  active_profile = m.active_profile;
  started_at = m.started_at;
  start_report = m.last_start_report;
  runtime_report = m.last_runtime_report;
}

-- `RuntimeError.Error`.
error_text : Option RuntimeError → String
error_text none = ""
error_text (some e) =
    concat "core: " (if is_empty e.layer then e.err else concat e.layer (concat ": " e.err))
