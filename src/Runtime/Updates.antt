-- ===== src/Runtime/Updates.antt =====
-- The orchestrator's methods that submit nothing (orchestrator.go). `RefreshActiveProgress` and
-- `RefreshHealth` ask the backend without the mutex, so they are two locked sections each.
use rknno_vpn.Prelude.{
  ℕ, String, Bool, true, false, not, ◌&&◌, ◌||◌, List, [], Option, none, some, is_empty, is_nil,
  is_some, str_eq, if◌then◌else◌, ◌-◌, ◌/◌, ◌==◌,
}
use rknno_vpn.Runtime.Types.{
  is_zero, BackendKind, backend_root_tproxy, stopped, DesiredState, OperationStatus, HealthSnapshot,
  CompatibilityStatus, Status,
}
use rknno_vpn.Runtime.Errors.{no_health, health_with_error}
use rknno_vpn.Runtime.Phase.{phase_from_health}
use rknno_vpn.Runtime.State.{
  Env, Orchestrator, or_text, busy, snapshot, log_stuck, log_locked, notify, millisecond,
}
use rknno_vpn.Runtime.Engine.{no_event}
use rknno_vpn.Runtime.Commands.{
  found, missing, CommandError, busy_error, failure, backend_for, applied_kind, is_stopped,
}

-- `NewOrchestrator`; the two minutes are in nanoseconds.
unfoldable pub new_orchestrator :
    DesiredState → List BackendKind → CompatibilityStatus → Orchestrator
new_orchestrator desired backends compatibility =
    let kind = or_text desired.backend_kind backend_root_tproxy in
    record {
      backends = backends;
      desired = record desired { backend_kind = kind };
      applied = record {
        backend_kind = kind;
        phase = stopped;
        active_profile_id = "";
        started_at = 0;
        generation = 0;
      };
      health = no_health;
      compatibility = compatibility;
      active = none;
      last = none;
      op_seq = 0;
      active_stuck_logged = false;
      watchdog_after = 120000000000;
      has_logger = false;
      has_observer = false;
      log = [];
      observed = [];
    }

unfoldable pub set_operation_watchdog : ℕ → Orchestrator → Orchestrator
set_operation_watchdog after o = record o { watchdog_after = after }

unfoldable pub set_operation_logger : Bool → Orchestrator → Orchestrator
set_operation_logger present o = record o { has_logger = present }

unfoldable pub set_status_observer : Bool → Orchestrator → Orchestrator
set_status_observer present o = record o { has_observer = present }

unfoldable pub set_compatibility : Env → CompatibilityStatus → Orchestrator → Orchestrator
set_compatibility env compatibility o = notify env (record o { compatibility = compatibility })

-- `SetActiveOperationStep`, for the operation in flight.
unfoldable pub set_step :
    Env → String → String → String → String → OperationStatus → Orchestrator → Orchestrator
unfolding log_locked notify
set_step env name status code detail active o =
    let stepped = record active {
      step = name;
      step_status = status;
      step_code = code;
      step_detail = detail;
    } in
    notify env (
      log_locked
        (record (no_event stepped) {
          step = name;
          step_status = status;
          step_detail = detail;
          result = "step";
          error_code = code;
          runtime_ms = (env.now - active.started_at) / millisecond;
        })
        (record o { active = some stepped }))

unfoldable pub set_active_operation_step :
    Env → ℕ → String → String → String → String → Orchestrator → Orchestrator × Bool
unfolding set_step
set_active_operation_step env generation name status code detail o = elim o.active [
  | none ↦ (o, false)
  | some active ↦
      if active.generation == generation
      then (set_step env name status code detail active o, true)
      else (o, false)
]

-- `validateDesiredLocked`.
unfoldable pub validate_desired : Env → DesiredState → Orchestrator → Option CommandError
validate_desired env desired o = elim (backend_for o desired.backend_kind) [
  | missing message ↦ some (failure message)
  | found k ↦
      if not (env.backend k).supported && not (str_eq desired.backend_kind backend_root_tproxy)
      then some (failure (env.backend k).reason)
      else none
]

-- The desired state with the current backend where it names none.
abbrev pub with_kind : Orchestrator → DesiredState → DesiredState
with_kind o desired = record desired {
  backend_kind = or_text desired.backend_kind o.desired.backend_kind;
}

unfoldable pub validate_desired_state : Env → DesiredState → Orchestrator → Option CommandError
validate_desired_state env desired o = elim (busy o env.now) [
  | some err ↦ some (busy_error err)
  | none ↦ validate_desired env (with_kind o desired) o
]

unfoldable pub apply_desired_state :
    Env → DesiredState → Orchestrator → Orchestrator × Option CommandError
apply_desired_state env desired o = elim (busy o env.now) [
  | some err ↦ (o, some (busy_error err))
  | none ↦ elim (validate_desired env (with_kind o desired) o) [
    | some err ↦ (o, some err)
    | none ↦ (notify env (record o { desired = with_kind o desired }), none)
  ]
]

-- `Status`.
unfoldable pub status : Env → Orchestrator → Orchestrator × Status
status env o = (log_stuck env o, snapshot env o)

unfoldable pub has_progress : HealthSnapshot → Bool
has_progress health =
    is_some health.stage_report
    || not (is_empty health.last_code)
    || not (is_empty health.last_error)
    || not (is_zero health.checked_at)

unfoldable pub merge_progress : HealthSnapshot → HealthSnapshot → HealthSnapshot
merge_progress current progress = record current {
  stage_report = elim progress.stage_report [
    | none ↦ current.stage_report
    | some report ↦ some report
  ];
  last_code = or_text progress.last_code current.last_code;
  last_error = or_text progress.last_error current.last_error;
  last_user_message = or_text progress.last_user_message current.last_user_message;
  last_debug = or_text progress.last_debug current.last_debug;
  rollback_applied = if progress.rollback_applied then true else current.rollback_applied;
  checked_at = if is_zero progress.checked_at then current.checked_at else progress.checked_at;
  checks = if is_nil progress.checks then current.checks else progress.checks;
}

-- The first section of `RefreshActiveProgress`: the kind of the backend to ask, if it goes on.
unfoldable pub refresh_progress_begin : Env → Orchestrator → Orchestrator × Option BackendKind
refresh_progress_begin env o = elim o.active [
  | none ↦ (log_stuck env o, none)
  | some _ ↦ elim (backend_for o (applied_kind o)) [
    | missing message ↦
        (log_stuck env (record o { health = health_with_error message env.now }), none)
    | found k ↦ (o, some k)
  ]
]

-- The second section, with what `CurrentHealth` answered.
unfoldable pub refresh_progress_end : Env → HealthSnapshot → Orchestrator → Orchestrator
refresh_progress_end env health o = log_stuck env (
    if is_some o.active && has_progress health
    then record o { health = merge_progress o.health health }
    else o)

-- The first section of `RefreshHealth`.
unfoldable pub refresh_health_begin : Env → Orchestrator → Orchestrator × Option BackendKind
refresh_health_begin env o = elim (backend_for o (applied_kind o)) [
  | missing message ↦ (notify env (record o { health = health_with_error message env.now }), none)
  | found k ↦ (o, some k)
]

-- The second section, with what the backend's `RefreshHealth` answered.
unfoldable pub refresh_health_end : Env → HealthSnapshot → Orchestrator → Orchestrator
refresh_health_end env health o = notify env (
    if not (is_some o.active) && not (is_stopped o.applied.phase)
    then record o {
      health = health;
      applied = record (o.applied) { phase = phase_from_health health o.applied.phase };
    }
    else record o { health = health })
