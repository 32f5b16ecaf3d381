-- ===== src/Runtime/Engine.antt =====
-- How an operation is begun, submitted and finished (orchestrator.go, beginOperationLocked,
-- submitLocked, runSubmittedOperation, finishOperationLocked).
use rknno_vpn.Prelude.{
  ℕ, String, ◌+◌, ◌-◌, ◌/◌, ◌%◌, ◌^◌, Bool, true, false, not, ◌&&◌, ◌||◌, Option, none, some, ltb,
  ◌==◌, is_some, is_empty, if◌then◌else◌,
}
use rknno_vpn.Runtime.Types.{
  Time, is_zero, Phase, unset, failed, OperationKind, AppliedState, OperationStatus, OperationStep,
  ResetReport, OperationResult, HealthSnapshot, OperationLogEvent, GoError, plain_error,
}
use rknno_vpn.Runtime.Report.{operation_step_from_report}
use rknno_vpn.Runtime.Errors.{no_health, error_code, health_from_error}
use rknno_vpn.Runtime.State.{Env, Orchestrator, millisecond, or_text, log_locked, notify}

pub record Completion : Type 0 where
  pub err : Option GoError
  pub health : HealthSnapshot
  pub applied : AppliedState
  pub reset_report : Option ResetReport

-- `int64(g) + 1`, kept at 1 where the sum, as a signed number, is below 1.
unfoldable pub next_generation : ℕ → ℕ
next_generation generation =
    let next = (generation + 1) % 2 ^ 64 in if ltb 0 next && ltb next (2 ^ 63) then next else 1

abbrev pub no_event : OperationStatus → OperationLogEvent
no_event op = record {
  operation_id = op.operation_id;
  kind = op.kind;
  generation = op.generation;
  phase = op.phase;
  step = "";
  step_status = "";
  step_detail = "";
  result = "";
  error_code = "";
  error_message = "";
  runtime_ms = 0;
  stuck = false;
}

-- The operation that `beginOperationLocked` makes.
unfoldable pub new_operation : Env → OperationKind → Phase → Orchestrator → OperationStatus
unfolding next_generation
new_operation env kind phase o = record {
  operation_id = (o.op_seq + 1) % 2 ^ 64;
  kind = kind;
  generation = next_generation o.applied.generation;
  phase = phase;
  started_at = env.now;
  step = "";
  step_status = "";
  step_code = "";
  step_detail = "";
  runtime_ms = 0;
  watchdog_after_ms = 0;
  stuck = false;
}

unfoldable pub begin_operation : OperationStatus → Orchestrator → Orchestrator
begin_operation op o = record o {
  op_seq = op.operation_id;
  active = some op;
  active_stuck_logged = false;
}

-- `submitLocked` up to the `go` statement: `configure` gives the applied state.
unfoldable pub submit :
    Env → OperationStatus → (OperationStatus → AppliedState) → Orchestrator → Orchestrator
unfolding begin_operation log_locked notify
submit env op configure o =
    let begun = begin_operation op o in
    let configured = record begun { applied = configure op } in
    notify env (log_locked (record (no_event op) { result = "accepted" }) configured)

-- How the goroutine's `run` ended.
pub data Ending : Type 0 where
  returned : Completion → Ending
  panicked : String → Ending

-- The completion that the deferred function makes of a panic.
unfoldable pub panic_completion : Env → OperationStatus → String → Orchestrator → Completion
panic_completion env op message o = record {
  err = some (plain_error message);
  health = record no_health { last_code = "PANIC"; last_error = message; checked_at = env.now };
  applied = record {
    backend_kind = or_text o.applied.backend_kind o.desired.backend_kind;
    phase = failed;
    active_profile_id = o.applied.active_profile_id;
    started_at = o.applied.started_at;
    generation = op.generation;
  };
  reset_report = none;
}

unfoldable pub completion_of : Env → OperationStatus → Ending → Orchestrator → Completion
unfolding panic_completion
completion_of env op (returned completion) o = completion
completion_of env op (panicked message) o = panic_completion env op message o

unfoldable pub operation_result : OperationStatus → Completion → Time → OperationResult
operation_result op completion finished_at = record {
  operation_id = op.operation_id;
  kind = op.kind;
  generation = op.generation;
  phase = op.phase;
  started_at = op.started_at;
  finished_at = finished_at;
  succeeded = not (is_some completion.err);
  error_code = elim completion.err [
    | none ↦ ""
    | some err ↦ or_text (error_code (some err)) completion.health.last_code
  ];
  error_message = elim completion.err [ none ↦ "" | some err ↦ err.message ];
  reset_report = completion.reset_report;
}

-- The health that `finishOperationLocked` leaves: the completion's, if it says anything, and then
-- the error's, if the completion has one and no checked health.
unfoldable pub finished_health : Env → Completion → HealthSnapshot → HealthSnapshot
finished_health env completion old =
    let h = completion.health in
    let kept =
      if not (is_zero h.checked_at) || not (is_empty h.last_error) || not (is_empty h.last_code)
      then h
      else old in
    elim completion.err [
      | none ↦ kept
      | some err ↦ if is_zero h.checked_at then health_from_error err env.now else kept
    ]

abbrev pub is_unset : Phase → Bool
is_unset unset = true
is_unset _ = false

-- Whether `op` is the operation in flight.
unfoldable pub is_active : Orchestrator → OperationStatus → Bool
is_active o op = elim o.active [
  | none ↦ false
  | some active ↦ active.operation_id == op.operation_id
]

-- The step of the final event: of the stage report, or of the operation that was in flight.
unfoldable pub final_step : Orchestrator → HealthSnapshot → OperationStatus → OperationStep
final_step o health op =
    let step = operation_step_from_report health.stage_report in
    elim o.active [
      | none ↦ step
      | some active ↦
          if is_empty step.name && active.operation_id == op.operation_id
          then record {
            name = active.step;
            status = active.step_status;
            code = active.step_code;
            detail = active.step_detail;
          }
          else step
    ]

unfoldable pub final_event :
    Env → OperationStatus → Completion → OperationStep → Phase → ℕ → OperationLogEvent
unfolding operation_result
final_event env op completion step phase watchdog_after =
    let result = operation_result op completion env.now in
    record {
      operation_id = op.operation_id;
      kind = op.kind;
      generation = op.generation;
      phase = phase;
      step = step.name;
      step_status = step.status;
      step_detail = step.detail;
      result = if is_some completion.err then "failed" else "ok";
      error_code = result.error_code;
      error_message = result.error_message;
      runtime_ms = (env.now - op.started_at) / millisecond;
      stuck = ltb 0 watchdog_after && ltb watchdog_after (env.now - op.started_at);
    }

unfoldable pub finish_operation : Env → OperationStatus → Completion → Orchestrator → Orchestrator
unfolding operation_result finished_health is_active final_step final_event log_locked
finish_operation env op completion o =
    let health = finished_health env completion o.health in
    let applied = if is_unset completion.applied.phase then o.applied else completion.applied in
    let step = final_step o health op in
    log_locked (final_event env op completion step applied.phase o.watchdog_after) (record o {
      health = health;
      applied = applied;
      last = some (operation_result op completion env.now);
      active = if is_active o op then none else o.active;
    })

-- The deferred function of `runSubmittedOperation`.
unfoldable pub finish : Env → OperationStatus → Ending → Orchestrator → Orchestrator
unfolding completion_of finish_operation notify
finish env op ending o = notify env (finish_operation env op (completion_of env op ending o) o)
