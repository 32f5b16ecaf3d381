-- ===== src/Runtime/State.antt =====
-- The orchestrator's state, its status and its busy error (orchestrator.go, busy.go,
-- status_model.go). A method holds the mutex for each locked section, so a section is one function
-- from the state to the state. `log` and `observed` are what the logger and the status observer
-- have received, newest first; `now` is the clock as the section reads it.
use rknno_vpn.Prelude.{
  ℕ, String, ◌+◌, ◌-◌, ◌/◌, ◌%◌, Bool, true, false, not, ◌&&◌, List, [], ◌∷◌, Option, none, some,
  ltb, ◌==◌, is_empty, str_eq, if◌then◌else◌,
}
use rknno_vpn.Runtime.Types.{
  Time, BackendKind, backend_root_tproxy, OperationKind, reset, DesiredState, AppliedState,
  OperationStatus, ResetReport, OperationResult, HealthSnapshot, is_healthy, is_operational,
  CanonicalStatus, BackendCapability, CompatibilityStatus, Status, OperationBusyError,
  OperationLogEvent, GoError,
}
use rknno_vpn.Runtime.Report.{operation_step_from_report}
use rknno_vpn.Runtime.Errors.{first_non_empty}

-- The report and the error of `Start`, `Restart` and `HandleNetworkChange`.
pub record CallResult : Type 0 where
  pub report : Option ResetReport
  pub error : Option GoError

-- The answers of the `Backend` interface; it runs scripts and probes that are not modelled.
pub record Backend : Type 0 where
  pub supported : Bool
  pub reason : String
  pub start : DesiredState → ℕ → CallResult
  pub stop : Option GoError
  pub reset : ℕ → ResetReport
  pub restart : DesiredState → ℕ → CallResult
  pub handle_network_change : ℕ → CallResult
  pub current_health : HealthSnapshot
  pub refresh_health : HealthSnapshot

-- What a locked section, or a submitted operation, meets outside: the clock, and each backend as
-- it answers at that time. Two sections may meet two environments.
pub record Env : Type 0 where
  pub now : Time
  pub backend : BackendKind → Backend

-- `backends` lists the registered kinds. `watchdog_after` is in nanoseconds; every read of it is
-- behind `> 0`, so a negative duration is 0 here.
pub record Orchestrator : Type 0 where
  pub backends : List BackendKind
  pub desired : DesiredState
  pub applied : AppliedState
  pub health : HealthSnapshot
  pub compatibility : CompatibilityStatus
  pub active : Option OperationStatus
  pub last : Option OperationResult
  pub op_seq : ℕ
  pub active_stuck_logged : Bool
  pub watchdog_after : ℕ
  pub has_logger : Bool
  pub has_observer : Bool
  pub log : List OperationLogEvent
  pub observed : List Status

abbrev pub is_reset : OperationKind → Bool
is_reset reset = true
is_reset _ = false

unfoldable pub new_runtime_busy_error : OperationStatus → OperationBusyError
new_runtime_busy_error active =
    if is_reset active.kind
    then record {
      code = "RESET_IN_PROGRESS";
      detail = "reset is in progress";
      active = some active;
    }
    else record {
      code = "RUNTIME_BUSY";
      detail = "runtime operation already in progress";
      active = some active;
    }

abbrev pub millisecond : ℕ
millisecond = 1000000

unfoldable pub duration_millis_ceil : ℕ → ℕ
duration_millis_ceil duration =
    let ms = duration / millisecond in
    let ceil = if duration % millisecond == 0 then ms else ms + 1 in if ltb ceil 1 then 1 else ceil

-- `cloneActiveOperationLocked` at a non-nil `o.active`. `-` stops at 0: a clock that reads before
-- the start gives 0 milliseconds by the source's own test, and is not past a positive watchdog.
unfoldable pub clone_active : Orchestrator → Time → OperationStatus → OperationStatus
unfolding duration_millis_ceil
clone_active o now active =
    let timed = record active { runtime_ms = (now - active.started_at) / millisecond } in
    let watched =
      if ltb 0 o.watchdog_after
      then record timed {
        watchdog_after_ms = duration_millis_ceil o.watchdog_after;
        stuck = ltb o.watchdog_after (now - active.started_at);
      }
      else timed in
    let step = operation_step_from_report o.health.stage_report in
    if is_empty step.name then watched else record watched {
      step = step.name;
      step_status = step.status;
      step_code = step.code;
      step_detail = step.detail;
    }

-- `busyLocked`: the error, if an operation is in flight.
unfoldable pub busy : Orchestrator → Time → Option OperationBusyError
unfolding new_runtime_busy_error
busy o now = elim o.active [
  | none ↦ none
  | some active ↦ some (new_runtime_busy_error (clone_active o now active))
]

unfoldable pub log_locked : OperationLogEvent → Orchestrator → Orchestrator
log_locked event o = if o.has_logger then record o { log = event ∷ o.log } else o

abbrev pub contains : List BackendKind → BackendKind → Bool
contains [] kind = false
contains (k ∷ kinds) kind = if str_eq k kind then true else contains kinds kind

-- The list of capabilities: of the one known kind, if it is registered.
unfoldable pub capabilities : Env → Orchestrator → List BackendCapability
capabilities env o =
    let backend = env.backend backend_root_tproxy in
    if contains o.backends backend_root_tproxy
    then record {
      kind = backend_root_tproxy;
      supported = backend.supported;
      reason = backend.reason;
    }
      ∷ []
    else []

abbrev pub or_text : String → String → String
or_text value default = if is_empty value then default else value

-- `Generation > 0` of a signed 64-bit number.
abbrev pub is_positive : ℕ → Bool
is_positive generation = ltb 0 generation && ltb generation 9223372036854775808

-- A text of the health, or, where it is empty, that of a last operation that failed.
abbrev pub after_last : Option OperationResult → (OperationResult → String) → String → String
after_last none field value = value
after_last (some result) field value =
    if result.succeeded then value else or_text value (field result)

-- `CanonicalStatusFromStatus`, over the fields of the status that it reads.
unfoldable pub canonical_status :
    DesiredState
    → AppliedState
    → HealthSnapshot
    → Option OperationStatus
    → Option OperationResult
    → CanonicalStatus
unfolding first_non_empty
canonical_status desired applied health active last = record base {
  phase = elim active [ some op ↦ op.phase | none ↦ applied.phase ];
  generation = elim active [
    | some op ↦ if is_positive op.generation then op.generation else applied.generation
    | none ↦ applied.generation
  ];
  last_code = elim active [
    | some op ↦ or_text op.step_code health.last_code
    | none ↦ after_last last (λ r. r.error_code) health.last_code
  ];
  last_error = elim active [
    | some op ↦ or_text op.step_detail health.last_error
    | none ↦ after_last last (λ r. r.error_message) health.last_error
  ];
}
  where
    base : CanonicalStatus
    base = record {
      backend_kind = applied.backend_kind;
      phase = applied.phase;
      active_profile_id =
          first_non_empty (applied.active_profile_id ∷ desired.active_profile_id ∷ []);
      generation = applied.generation;
      readiness = record {
        ready = is_healthy health;
        operational_healthy = is_operational health;
        core_ready = health.core_ready;
        routing_ready = health.routing_ready;
        dns_ready = health.dns_ready;
        egress_ready = health.egress_ready;
      };
      last_code = health.last_code;
      last_error = health.last_error;
      last_user_message = health.last_user_message;
      last_debug = health.last_debug;
      rollback_applied = health.rollback_applied;
      checked_at = health.checked_at;
    }

-- The status that a section returns.
unfoldable pub snapshot : Env → Orchestrator → Status
unfolding canonical_status capabilities
snapshot env o =
    let active : Option OperationStatus = elim o.active [
      | none ↦ none
      | some op ↦ some (clone_active o env.now op)
    ] in
    record {
      desired_state = o.desired;
      applied_state = o.applied;
      canonical = canonical_status o.desired o.applied o.health active o.last;
      health = o.health;
      capabilities = capabilities env o;
      compatibility = o.compatibility;
      active_operation = active;
      last_operation = o.last;
    }

-- The event "stuck" of an operation's clone.
abbrev pub stuck_event : OperationStatus → OperationLogEvent
stuck_event active = record {
  operation_id = active.operation_id;
  kind = active.kind;
  generation = active.generation;
  phase = active.phase;
  step = active.step;
  step_status = active.step_status;
  step_detail = active.step_detail;
  result = "stuck";
  error_code = "OPERATION_STUCK";
  error_message = "";
  runtime_ms = active.runtime_ms;
  stuck = true;
}

-- The state that `statusLocked` leaves: an operation past its watchdog is logged once.
unfoldable pub log_stuck : Env → Orchestrator → Orchestrator
unfolding log_locked
log_stuck env o = elim o.active [
  | none ↦ o
  | some op ↦
      let active = clone_active o env.now op in
      let marked = record o { active_stuck_logged = true } in
      if active.stuck
        && ltb 0 active.runtime_ms
        && not (is_empty active.step)
        && not o.active_stuck_logged
      then log_locked (stuck_event active) marked
      else o
]

-- `statusLocked`: the state after it, and the status.
abbrev pub status_locked : Env → Orchestrator → Orchestrator × Status
status_locked env o = (log_stuck env o, snapshot env o)

-- `status := o.statusLockedWithoutStuckLog()`, and after the unlock `observer(status)`.
unfoldable pub notify : Env → Orchestrator → Orchestrator
notify env o = if o.has_observer then record o { observed = snapshot env o ∷ o.observed } else o
