-- ===== src/Core/State.antt =====
-- The state of the manager and the calls that it makes (manager.go). What a process, a file, a script
-- or the clock answers is given by a `World`, which sees the calls made before.
use rknno_vpn.Prelude.{
  ℕ, ◌+◌, String, Bool, true, false, List, ◌∷◌, Option, none, some, if◌then◌else◌, ℤ, str_eq,
}
use rknno_vpn.Recovery.Health.{CoreState, stopped, starting, running, degraded, rescue, stopping}
use rknno_vpn.Core.Report.{RuntimeStageReport, add_stage}

-- `State.String`.
unfoldable pub state_name : CoreState → String
state_name stopped = "stopped"
state_name starting = "starting"
state_name running = "running"
state_name degraded = "degraded"
state_name rescue = "rescue"
state_name stopping = "stopping"

-- The fields of the configuration that the manager reads; `settings` stands for the rest, and the
-- two helper ports are those that `ResolveProfileInbounds` gives.
pub record CoreConfig : Type 0 where
  pub tproxy_port : ℤ
  pub dns_port : ℤ
  pub api_port : ℤ
  pub socks_port : ℤ
  pub http_port : ℤ
  pub settings : String

pub record NodeProfile : Type 0 where
  pub protocol : String
  pub address : String
  pub settings : String

-- A process stands for itself by its pid; `exit_ch` is the process whose exit the channel reports.
pub record CoreManager : Type 0 where
  pub config : CoreConfig
  pub process : Option ℕ
  pub exit_ch : Option ℕ
  pub pid : ℕ
  pub xray_process : Option ℕ
  pub xray_exit_ch : Option ℕ
  pub xray_pid : ℕ
  pub state : CoreState
  pub active_profile : String
  pub running_config : Option CoreConfig
  pub running_profile : Option NodeProfile
  pub started_at : ℕ
  pub last_start_report : RuntimeStageReport
  pub last_runtime_report : RuntimeStageReport

pub data CoreFile : Type 0 where
  core_config swap_config xray_config core_pid_file xray_pid_file active_file manual_flag : CoreFile

pub data Signal : Type 0 where
  sigterm sigkill signal_zero : Signal

pub data CoreCall : Type 0 where
  renders_core : CoreConfig → NodeProfile → CoreFile → CoreCall
  renders_xray : NodeProfile → CoreCall
  checks_core : CoreFile → CoreCall
  checks_xray prepares_core opens_core_log : CoreCall
  spawns_core : CoreFile → CoreCall
  spawns_xray : CoreCall
  waits_for_port : ℤ → ℕ → ℕ → CoreCall
  verifies_owners applies_rules verifies_rules cleans_rules : CoreCall
  signals : Signal → ℕ → CoreCall
  awaits_exit : ℕ → ℕ → CoreCall
  kills_tracked_core kills_tracked_xray : CoreCall
  removes : CoreFile → CoreCall
  writes_pid : CoreFile → ℕ → CoreCall
  renames : CoreFile → CoreFile → CoreCall
  marks_active : CoreCall

-- An error, with the code of a `netstack.Error` ("" where there is none).
pub record Fault : Type 0 where
  pub text : String
  pub code : String

-- The calls made before come first, the newest of them at the head.
pub record World : Type 0 where
  pub fault : List CoreCall → CoreCall → Option Fault
  pub exits : List CoreCall → CoreCall → Bool
  pub new_pid : List CoreCall → CoreCall → ℕ
  pub steps : List CoreCall → CoreCall → ℕ
  pub now : ℕ → ℕ
  pub requires_xray : NodeProfile → Bool
  pub json_clone : CoreConfig → Option CoreConfig
  pub file_path : CoreFile → String
  pub log_path : String

-- `RuntimeError`; `Err` is its text.
pub record RuntimeError : Type 0 where
  pub layer : String
  pub code : String
  pub hard : Bool
  pub user_message : String
  pub debug : String
  pub rollback_applied : Bool
  pub runtime_preserved : Bool
  pub stage_report : RuntimeStageReport
  pub err : String

-- A call in progress: the manager, the report that the call holds, the calls made, the newest first,
-- and how often the clock was read.
pub record CoreRun : Type 0 where
  pub core : CoreManager
  pub report : RuntimeStageReport
  pub calls : List CoreCall
  pub ticks : ℕ

-- A function that goes on, or that has returned an error.
pub data Outcome : Type 0 where
  continued : CoreRun → Outcome
  failed : CoreRun → RuntimeError → Outcome

-- The rest of a function, unless an error is returned.
abbrev pub and_then : Outcome → (CoreRun → Outcome) → Outcome
and_then (continued r) k = k r
and_then (failed r e) k = failed r e

abbrev pub tell : CoreCall → CoreRun → CoreRun
tell c r = record r { calls = c ∷ r.calls }

unfoldable pub runtime_user_message : String → String
runtime_user_message code =
    if str_eq code "CONFIG_RENDER_FAILED"
    then "Generated sing-box config could not be rendered."
    else if str_eq code "CONFIG_CHECK_FAILED"
    then "Generated sing-box config did not pass sing-box check."
    else if str_eq code "CORE_LOG_OPEN_FAILED"
    then "sing-box log file could not be opened."
    else if str_eq code "CORE_SPAWN_FAILED"
    then "sing-box process could not be started."
    else if str_eq code "CORE_STOP_FAILED"
    then "previous sing-box process could not be stopped."
    else if str_eq code "TPROXY_PORT_DOWN"
    then "sing-box did not open the TPROXY listener."
    else if str_eq code "DNS_LISTENER_DOWN"
    then "sing-box did not open the local DNS listener."
    else if str_eq code "API_PORT_DOWN"
    then "sing-box did not open the local API listener."
    else if str_eq code "RULES_NOT_APPLIED"
    then "RKNnoVPN routing rules could not be applied."
    else if str_eq code "DNS_APPLY_FAILED"
    then "RKNnoVPN DNS interception could not be applied."
    else if str_eq code "NETSTACK_VERIFY_FAILED"
    then "RKNnoVPN network rules were applied but did not pass verification."
    else if str_eq code "NETSTACK_CLEANUP_FAILED"
    then "Previous RKNnoVPN network rules could not be cleaned up."
    else if str_eq code "LOCAL_PROXY_OWNER_MISMATCH"
    then "Local proxy port is not owned by the configured app."
    else "Runtime stage failed."

-- `runtimeErrorWithReport` and `runtimePreservedErrorWithReport`, for an error that is there.
unfoldable pub runtime_error_with_report :
    String → String → String → Bool → RuntimeStageReport → RuntimeError
runtime_error_with_report layer code err rolled report = record {
  layer = layer;
  code = code;
  hard = true;
  user_message = runtime_user_message code;
  debug = err;
  rollback_applied = rolled;
  runtime_preserved = false;
  stage_report = report;
  err = err;
}

unfoldable pub runtime_preserved_error_with_report :
    String → String → String → RuntimeStageReport → RuntimeError
unfolding runtime_error_with_report
runtime_preserved_error_with_report layer code err report =
    record (runtime_error_with_report layer code err true report) { runtime_preserved = true }

module _ (w : World) where
  -- A call with its error.
  unfoldable pub ask : CoreCall → CoreRun → CoreRun × Option Fault
  ask c r = (tell c r, w.fault r.calls c)

  -- A call that ends the function where it fails.
  unfoldable pub try_call :
      CoreCall → (Fault → CoreRun → Outcome) → (CoreRun → Outcome) → CoreRun → Outcome
  try_call c bad good r = elim (w.fault r.calls c) [
    | none ↦ good (tell c r)
    | some f ↦ bad f (tell c r)
  ]

  -- The closure `recordStage` of `Start` (the first argument is true) and of `HotSwap`.
  unfoldable pub record_stage : Bool → String → String → String → String → Bool → CoreRun → CoreRun
  record_stage starts name status code detail rolled r =
      let report = add_stage (w.now r.ticks) name status code detail rolled r.report in
      record r {
        report = report;
        ticks = r.ticks + 1;
        core = record r.core {
          last_start_report = if starts then report else r.core.last_start_report;
          last_runtime_report = report;
        };
      }

  -- The closure `failStage`.
  unfoldable pub fail_stage : Bool → String → String → String → String → Bool → CoreRun → Outcome
  unfolding record_stage runtime_error_with_report
  fail_stage starts name layer code err rolled r =
      let r' = record_stage starts name "failed" code err rolled r in
      failed r' (runtime_error_with_report layer code err rolled r'.report)

  -- `cloneConfigForRuntime`.
  unfoldable pub clone_config_for_runtime : Option CoreConfig → Option CoreConfig
  clone_config_for_runtime none = none
  clone_config_for_runtime (some cfg) = elim (w.json_clone cfg) [
    | none ↦ some cfg
    | some copy ↦ some copy
  ]

-- `ResetState`: the fields, and the files that it removes.
unfoldable pub cleared_core : CoreState → CoreManager → CoreManager
cleared_core s m = record m {
  process = none;
  exit_ch = none;
  pid = 0;
  xray_process = none;
  xray_exit_ch = none;
  xray_pid = 0;
  active_profile = "";
  running_config = none;
  running_profile = none;
  started_at = 0;
  state = s;
}

unfoldable pub reset_state : CoreRun → CoreRun
unfolding cleared_core
reset_state r = tell (removes active_file) (
    tell (removes xray_pid_file)
      (tell (removes core_pid_file) (record r { core = cleared_core stopped r.core })))
