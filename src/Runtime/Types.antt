-- ===== src/Runtime/Types.antt =====
-- daemon/internal/runtimev2/types.go, orchestrator.go (records) and busy.go (the error's record).
-- An instant is a count of nanoseconds with 0 the zero `time.Time`; an `int64` generation is its
-- two's complement bit pattern below 2 ^ 64; an operation's id, the decimal print of a `uint64`,
-- is that number. A pointer that may be nil is an option.
use rknno_vpn.Prelude.{ℕ, String, Bool, List, Option, ◌==◌, ◌&&◌}

abbrev pub Time : Type 0
Time = ℕ

-- `t.IsZero()`.
abbrev pub is_zero : Time → Bool
is_zero t = t == 0

abbrev pub BackendKind : Type 0
BackendKind = String

abbrev pub backend_root_tproxy : BackendKind
backend_root_tproxy = "ROOT_TPROXY"

-- `unset` is the empty string, the zero value of the Go type.
pub data Phase : Type 0 where
  unset stopped applying starting config_checked core_spawned core_listening : Phase
  rules_applied dns_applied outbound_checked stopping resetting healthy degraded failed : Phase

pub data OperationKind : Type 0 where
  start stop restart reset reload apply_desired_state config_mutation : OperationKind
  profile_apply network_change rescue update_install : OperationKind

pub record AppSelection : Type 0 where
  pub proxy_packages : List String
  pub bypass_packages : List String

pub record DnsPolicy : Type 0 where
  pub remote_dns : String
  pub direct_dns : String
  pub fake_dns : Bool
  pub ipv6_mode : String

pub record DesiredState : Type 0 where
  pub backend_kind : BackendKind
  pub active_profile_id : String
  pub routing_mode : String
  pub app_selection : AppSelection
  pub dns_policy : DnsPolicy
  pub fallback_policy : String

pub record AppliedState : Type 0 where
  pub backend_kind : BackendKind
  pub phase : Phase
  pub active_profile_id : String
  pub started_at : Time
  pub generation : ℕ

pub record OperationStatus : Type 0 where
  pub operation_id : ℕ
  pub kind : OperationKind
  pub generation : ℕ
  pub phase : Phase
  pub started_at : Time
  pub step : String
  pub step_status : String
  pub step_code : String
  pub step_detail : String
  pub runtime_ms : ℕ
  pub watchdog_after_ms : ℕ
  pub stuck : Bool

pub record ResetStep : Type 0 where
  pub name : String
  pub status : String
  pub detail : String

pub record ResetReport : Type 0 where
  pub backend_kind : BackendKind
  pub generation : ℕ
  pub status : String
  pub steps : List ResetStep
  pub warnings : List String
  pub errors : List String
  pub leftovers : List String
  pub reboot_required : Bool

pub record OperationResult : Type 0 where
  pub operation_id : ℕ
  pub kind : OperationKind
  pub generation : ℕ
  pub phase : Phase
  pub started_at : Time
  pub finished_at : Time
  pub succeeded : Bool
  pub error_code : String
  pub error_message : String
  pub reset_report : Option ResetReport

-- One stage of a stage report, and the step that an operation shows.
pub record OperationStep : Type 0 where
  pub name : String
  pub status : String
  pub code : String
  pub detail : String

-- A non-nil `interface{}` stage report, as the reads of orchestrator.go see it: a JSON object, a
-- struct (`none` if it has no slice `Stages`), or something else. A field that is absent or no
-- string reads as "", so a stage is the step of its four reads.
pub data StageReport : Type 0 where
  object : (failed_stage : String) (stages : List OperationStep) → StageReport
  struct : (failed_stage : String) (stages : Option (List OperationStep)) → StageReport
  opaque : StageReport

pub record HealthCheckSnapshot : Type 0 where
  pub pass : Bool
  pub code : String
  pub detail : String

pub record HealthSnapshot : Type 0 where
  pub core_ready : Bool
  pub dns_ready : Bool
  pub routing_ready : Bool
  pub egress_ready : Bool
  pub last_code : String
  pub last_error : String
  pub last_user_message : String
  pub last_debug : String
  pub rollback_applied : Bool
  pub stage_report : Option StageReport
  pub checked_at : Time
  pub checks : List (String × HealthCheckSnapshot)

-- `HealthSnapshot.Healthy`.
abbrev pub is_healthy : HealthSnapshot → Bool
is_healthy h = h.core_ready && h.routing_ready

-- `HealthSnapshot.OperationalHealthy`.
abbrev pub is_operational : HealthSnapshot → Bool
is_operational h = is_healthy h && h.dns_ready && h.egress_ready

pub record ReadinessStatus : Type 0 where
  pub ready : Bool
  pub operational_healthy : Bool
  pub core_ready : Bool
  pub routing_ready : Bool
  pub dns_ready : Bool
  pub egress_ready : Bool

pub record CanonicalStatus : Type 0 where
  pub backend_kind : BackendKind
  pub phase : Phase
  pub active_profile_id : String
  pub generation : ℕ
  pub readiness : ReadinessStatus
  pub last_code : String
  pub last_error : String
  pub last_user_message : String
  pub last_debug : String
  pub rollback_applied : Bool
  pub checked_at : Time

pub record BackendCapability : Type 0 where
  pub kind : BackendKind
  pub supported : Bool
  pub reason : String

pub record OperationPolicy : Type 0 where
  pub stages : List String
  pub error_codes : List String

pub record MethodCapability : Type 0 where
  pub method : String
  pub capability : String
  pub compatibility : String
  pub mutating : Bool
  pub async : Bool

-- A nil slice and an empty one are one list here, so the deep copies of this record, of a reset
-- report and of an operation's result are the values themselves.
pub record CompatibilityStatus : Type 0 where
  pub daemon_version : String
  pub module_version : String
  pub current_release_version : String
  pub current_release_ok : Bool
  pub current_release_error : String
  pub control_protocol_version : ℕ
  pub schema_version : ℕ
  pub ipc_contract_version : ℕ
  pub contract_hash : String
  pub compatibility_fingerprint : String
  pub daemon_pid : ℕ
  pub socket_inode : String
  pub panel_min_version : String
  pub capabilities : List String
  pub supported_methods : List String
  pub apk_required_methods : List String
  pub error_codes : List String
  pub compatibility_policies : List String
  pub operation_policies : List (String × OperationPolicy)
  pub methods : List MethodCapability

pub record Status : Type 0 where
  pub desired_state : DesiredState
  pub applied_state : AppliedState
  pub canonical : CanonicalStatus
  pub health : HealthSnapshot
  pub capabilities : List BackendCapability
  pub compatibility : CompatibilityStatus
  pub active_operation : Option OperationStatus
  pub last_operation : Option OperationResult

pub record OperationBusyError : Type 0 where
  pub code : String
  pub detail : String
  pub active : Option OperationStatus

pub record OperationLogEvent : Type 0 where
  pub operation_id : ℕ
  pub kind : OperationKind
  pub generation : ℕ
  pub phase : Phase
  pub step : String
  pub step_status : String
  pub step_detail : String
  pub result : String
  pub error_code : String
  pub error_message : String
  pub runtime_ms : ℕ
  pub stuck : Bool

-- An `error`: its message, and what `errors.As` finds in its chain for each interface of
-- orchestrator.go (`none` where no error of the chain has the method).
pub record GoError : Type 0 where
  pub message : String
  pub runtime_code : Option String
  pub user_message : Option String
  pub debug : Option String
  pub rollback : Option Bool
  pub stage_report : Option (Option StageReport)
  pub reset_report : Option ResetReport

abbrev pub plain_error : String → GoError
plain_error m = record {
  message = m;
  runtime_code = Option.none;
  user_message = Option.none;
  debug = Option.none;
  rollback = Option.none;
  stage_report = Option.none;
  reset_report = Option.none;
}
