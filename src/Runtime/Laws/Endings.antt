-- ===== src/Runtime/Laws/Endings.antt =====
-- How each operation ends (orchestrator.go, the `run` closures with finishOperationLocked).
use rknno_vpn.Prelude.{
  ℕ, String, true, false, ◌≡◌, ◌≢◌, ◌⊎◌, ◌↔◌, refl, Option, none, some, arith, [], str_eq,
}
use rknno_vpn.Runtime.Types.{
  HealthSnapshot, Phase, is_zero, is_healthy, is_operational, stopped, failed, healthy,
  OperationStatus, OperationResult, AppliedState, DesiredState, BackendKind, GoError,
}
use rknno_vpn.Runtime.Errors.{health_from_error, error_code}
use rknno_vpn.Runtime.Phase.{phase_from_health, faulty_phase, code_phase}
use rknno_vpn.Runtime.State.{Env, Orchestrator, CallResult, log_locked, notify}
use rknno_vpn.Runtime.Engine.{
  Ending, returned, panicked, completion_of, panic_completion, finish_operation, finish,
  finished_health, operation_result, is_unset,
}
use rknno_vpn.Runtime.Commands.{is_stopped}
use rknno_vpn.Runtime.Tasks.{launched, run_stop, run_reset, backend_of}
use rknno_vpn.Runtime.Laws.Phases.{
  code_phase-is_coded, is_coded, phase_of_code, phase_from_health_cases,
}
use rknno_vpn.Runtime.Laws.Finish.{finish-last, launched-HasGeneration}

-- The applied state and the health that an end leaves.
pub finish-applied :
    (env : Env) (op : OperationStatus) (ending : Ending) (o : Orchestrator)
    → let c = completion_of env op ending o in
      ((finish env op ending o).applied
        ≡ elim (is_unset c.applied.phase) [ true ↦ o.applied | false ↦ c.applied ])
      × ((finish env op ending o).health ≡ finished_health env c o.health)
unfolding finish finish_operation log_locked notify
finish-applied env op ending o = ground arith

-- The phase of the health of an error is that of its code.
error_phase :
    (err : GoError) (now : ℕ)
    → is_zero now ≡ false
    → phase_from_health (health_from_error err now) failed
      ≡ phase_of_code (health_from_error err now).last_code
unfolding phase_from_health faulty_phase health_from_error
error_phase err now h = ground (arith, h)

-- The phase of the health of an error is one of the table.
error_phase_progress :
    (err : GoError) (now : ℕ)
    → is_coded (phase_from_health (health_from_error err now) failed) ≡ true
unfolding health_from_error
error_phase_progress err now =
    ground (arith, phase_from_health_cases (health_from_error err now) failed)

-- An operation whose closure panicked ends failed, with the panic as the health and the result.
pub panic_ends :
    (env : Env) (op : OperationStatus) (message : String) (o : Orchestrator)
    → is_zero env.now ≡ false
    → let t = finish env op (panicked message) o in
      (t.applied.phase ≡ failed)
      × (t.applied.generation ≡ op.generation)
      × (t.health.last_code ≡ "PANIC")
      × (t.health.last_error ≡ message)
      × ((r : OperationResult) × (t.last ≡ some r)
          × (r.succeeded ≡ false)
          × (r.error_message ≡ message)
          × (r.error_code ≡ "PANIC"))
unfolding completion_of panic_completion finished_health operation_result error_code
panic_ends env op message o h =
    let law = finish-applied env op (panicked message) o in
    (
      ground (arith, law),
      ground (arith, law),
      ground (arith, law),
      ground (arith, law),
      (
        operation_result op (completion_of env op (panicked message) o) env.now,
        finish-last env op (panicked message) o,
        refl,
        refl,
        refl,
      ),
    )

-- `Start` and `Restart`: the phase that the closure's completion asks for.
launched-phase :
    (env : Env) (desired : DesiredState) (op : OperationStatus) (result : CallResult)
    (err : GoError)
    → result.error ≡ some err
    → ((launched env desired op result).err ≡ some err)
      × (is_coded (launched env desired op result).applied.phase ≡ true)
      × ((launched env desired op result).health ≡ health_from_error err env.now)
unfolding launched
launched-phase env desired op result err e = ground (arith, error_phase_progress err env.now)

is_coded-not_unset : (p : Phase) → is_coded p ≡ true → is_unset p ≡ false
is_coded-not_unset p h = ground arith

-- A start or restart that the backend refused with an error, at a time that is not the zero time, ends
-- with a failed result of that message, with the health of the error, and with the phase that belongs
-- to the code of that health, or failed for a code that has none.
pub launch_error_ends :
    (env env' : Env) (o : Orchestrator) (desired : DesiredState) (op : OperationStatus)
    (result : CallResult) (err : GoError)
    → result.error ≡ some err
    → is_zero env.now ≡ false
    → let t = finish env' op (returned (launched env desired op result)) o in
      (t.applied.phase ≡ phase_of_code (health_from_error err env.now).last_code)
      × (t.health ≡ health_from_error err env.now)
      × (t.applied.generation ≡ op.generation)
      × ((r : OperationResult) × (t.last ≡ some r)
          × (r.succeeded ≡ false)
          × (r.error_message ≡ err.message))
unfolding completion_of operation_result launched finished_health
launch_error_ends env env' o desired op result err e later =
    let c = launched env desired op result in
    let law = finish-applied env' op (returned c) o in
    let phase = launched-phase env desired op result err e in
    let set = is_coded-not_unset c.applied.phase phase.1 in
    let gen = launched-HasGeneration env desired op result in
    (
      ground (arith, law, phase, set, error_phase err env.now later),
      ground (arith, law, phase, later),
      ground (arith, law, phase, set, gen),
      (
        operation_result op c env'.now,
        finish-last env' op (returned c) o,
        ground (arith, phase),
        ground (arith, phase),
      ),
    )

coded_start_inv :
    (health : HealthSnapshot) (found : Option Phase)
    → code_phase health.last_code ≡ found
    → phase_from_health health healthy ≡ healthy
    → (is_zero health.checked_at ≡ true)
      ⊎ ((is_operational health ≡ true) ⊎ ((is_healthy health ≡ false) × (found ≡ none)))
unfolding phase_from_health faulty_phase
coded_start_inv health none e h = ground (arith, e)
coded_start_inv health (some p) e h =
    let c = code_phase-is_coded health.last_code p e in ground (arith, e, c)

-- The health that shows as healthy behind a start.
healthy_start_inv :
    (health : HealthSnapshot)
    → phase_from_health health healthy ≡ healthy
    → (is_zero health.checked_at ≡ true)
      ⊎ ((is_operational health ≡ true)
          ⊎ ((is_healthy health ≡ false) × (code_phase health.last_code ≡ none)))
unfolding phase_from_health faulty_phase
healthy_start_inv health h = coded_start_inv health (code_phase health.last_code) refl h

healthy_start :
    (health : HealthSnapshot)
    → (is_zero health.checked_at ≡ true)
      ⊎ ((is_operational health ≡ true)
          ⊎ ((is_healthy health ≡ false) × (code_phase health.last_code ≡ none)))
    → phase_from_health health healthy ≡ healthy
unfolding phase_from_health faulty_phase
healthy_start health h = ground (arith, h)

-- A start or restart that the backend accepted ends with a successful result and the time of its start.
-- Its phase is that of the health that the backend then reports, and is healthy exactly if that health
-- was never checked, is operational, or has a core or a routing that is not ready and a code that no
-- phase belongs to; a health that was checked is kept as the one of the runtime.
pub launch_success_ends :
    (env env' : Env) (o : Orchestrator) (desired : DesiredState) (op : OperationStatus)
    (result : CallResult)
    → result.error ≡ none
    → let t = finish env' op (returned (launched env desired op result)) o in
      let health = (backend_of env desired.backend_kind).refresh_health in
      (t.applied.phase ≡ phase_from_health health healthy)
      × ((t.applied.phase ≡ healthy) ↔ (
          (is_zero health.checked_at ≡ true)
          ⊎ ((is_operational health ≡ true)
              ⊎ ((is_healthy health ≡ false) × (code_phase health.last_code ≡ none)))))
      × (is_zero health.checked_at ≡ false → t.health ≡ health)
      × (t.applied.started_at ≡ op.started_at)
      × ((r : OperationResult) × (t.last ≡ some r) × (r.succeeded ≡ true))
unfolding completion_of operation_result launched finished_health
launch_success_ends env env' o desired op result e =
    let c = launched env desired op result in
    let law = finish-applied env' op (returned c) o in
    let health = (backend_of env desired.backend_kind).refresh_health in
    let cases = phase_from_health_cases health healthy in
    (
      ground (arith, law, cases),
      (
        λ h. healthy_start_inv health (ground (arith, law, cases, h)),
        λ h. ground (arith, law, cases, healthy_start health h),
      ),
      (λ h. ground (arith, law, h)),
      ground (arith, law, cases),
      (operation_result op c env'.now, finish-last env' op (returned c) o, ground arith),
    )

-- A stop keeps the error of `Stop`. It ends failed exactly if that call failed, the runtime was not
-- already stopped, and the reset after it did not report "ok"; otherwise it ends stopped.
pub stop_ends :
    (env : Env) (kind : BackendKind) (active : AppliedState) (op : OperationStatus)
    → let c = run_stop env kind active op in
      let backend = backend_of env kind in
      (c.err ≡ backend.stop)
      × ((c.applied.phase ≡ failed) ↔ (
          (backend.stop ≢ none)
          × (is_stopped active.phase ≡ false)
          × (str_eq (backend.reset op.generation).status "ok" ≡ false)))
      × ((c.applied.phase ≡ failed) ⊎ (c.applied.phase ≡ stopped))
unfolding run_stop
stop_ends env kind active op = (ground arith, (λ h. ground arith, λ h. ground arith), ground arith)

-- A reset always ends stopped, with its report. It ends without an error exactly if the report has
-- no errors and its status is neither "partial" nor "failed".
pub reset_ends :
    (env : Env) (kind : BackendKind) (desired : DesiredState) (op : OperationStatus)
    → let c = run_reset env kind desired op in
      let report = (backend_of env kind).reset op.generation in
      (c.applied.phase ≡ stopped)
      × (c.reset_report ≡ some report)
      × ((c.err ≡ none) ↔ (
          (report.errors ≡ [])
          × (str_eq report.status "partial" ≡ false)
          × (str_eq report.status "failed" ≡ false)))
unfolding run_reset
reset_ends env kind desired op = (refl, refl, (λ h. ground arith, λ h. ground arith))
