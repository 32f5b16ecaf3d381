-- ===== src/Runtime/Tests.antt =====
-- The orchestrator at concrete inputs: the properties applied, and short runs.
use rknno_vpn.Prelude.{
  ◌≤◌, ◌↔◌, ◌⊎◌, true, false, [], ◌∷◌, none, some, ◌≡◌, ◌≢◌, refl, arith, str_eq,
}
use rknno_vpn.Runtime.Types.{
  is_zero, is_operational, is_healthy, plain_error, OperationStep, OperationResult, starting,
  failed, healthy, stopped,
}
use rknno_vpn.Runtime.Errors.{health_from_error, error_code}
use rknno_vpn.Runtime.Report.{operation_step_from_report}
use rknno_vpn.Runtime.Phase.{phase_from_health, faulty_phase, code_phase}
use rknno_vpn.Runtime.State.{
  busy, log_stuck, notify, log_locked, snapshot, clone_active, duration_millis_ceil,
  new_runtime_busy_error, canonical_status, capabilities, CallResult,
}
use rknno_vpn.Runtime.Engine.{
  submit, begin_operation, finish, finish_operation, completion_of, operation_result,
  finished_health, is_active, final_step, final_event, new_operation, returned, panicked,
}
use rknno_vpn.Runtime.Commands
use rknno_vpn.Runtime.Commands.{
  start_run, refused, busy_error, is_stopped, launch_on, accept, if_idle, with_backend, refuse,
  refuse_with_health, backend_for,
}
use rknno_vpn.Runtime.Tasks.{run_task, run_stop, launched}
use rknno_vpn.Runtime.Updates.{new_orchestrator}
use rknno_vpn.Runtime.Laws.Busy.{command_refused, LogsOnly}
use rknno_vpn.Runtime.Laws.Phases.{phase_of_code}
use rknno_vpn.Runtime.Laws.Endings.{panic_ends, launch_error_ends, launch_success_ends, stop_ends}
use rknno_vpn.Runtime.System.Invariant.{Inv, Reach-Inv}
use rknno_vpn.Runtime.System.Progress.{IsOwnPath, IsOver, in_flight_can_end, Step-generation}
use rknno_vpn.Runtime.System.{System, Reach, at_start, moved, calls, start, reset, command}
use rknno_vpn.Runtime.Samples.{
  compatibility, desired, ready, clean_report, backend, env, machine, started, routine,
}

-- What a run of the orchestrator computes with.
open_runtime : Unit {0}
unfolding new_orchestrator command Commands.start Commands.reset Commands.stop Commands.restart
    Commands.launch launch_on accept if_idle with_backend refuse refuse_with_health backend_for busy
    submit new_operation begin_operation log_stuck notify log_locked snapshot clone_active
    operation_step_from_report duration_millis_ceil finish finish_operation completion_of run_task
    operation_result finished_health is_active final_step final_event error_code
    new_runtime_busy_error canonical_status capabilities health_from_error phase_from_health
    faulty_phase code_phase launched
open_runtime = tt

-- A start on a fresh orchestrator is accepted.
start_accepted :
    (started.state.op_seq ≡ 1)
    × (started.state.applied.generation ≡ 1)
    × (started.state.applied.phase ≡ starting)
unfolding open_runtime
start_accepted = (refl, refl, refl)

Reach-Inv_example : Inv started
Reach-Inv_example =
    Reach-Inv desired ("ROOT_TPROXY" ∷ []) compatibility (moved at_start (calls env start refl))

started-Inv : Inv started
started-Inv =
    Reach-Inv desired ("ROOT_TPROXY" ∷ []) compatibility (moved at_start (calls env start refl))

in_flight_can_end_example :
    (t : System) × ((path : Reach started t) × IsOwnPath routine.op path) × IsOver routine.op t
unfolding open_runtime
in_flight_can_end_example = in_flight_can_end env started routine started-Inv refl

Step-generation_example : machine.state.applied.generation ≤ started.state.applied.generation
unfolding new_orchestrator
Step-generation_example =
    Step-generation (calls env start refl)
      (Reach-Inv desired ("ROOT_TPROXY" ∷ []) compatibility at_start) (omega arith)

command_refused_example :
    ((command env reset started.state).1
      ≡ refused
          (snapshot env started.state)
          (busy_error (new_runtime_busy_error (clone_active started.state env.now routine.op))))
    × LogsOnly started.state (command env reset started.state).0
unfolding open_runtime
command_refused_example = command_refused env reset started.state routine.op refl

panic_ends_example :
    let t = finish env routine.op (panicked "nil map") started.state in
    (t.applied.phase ≡ failed)
    × (t.applied.generation ≡ routine.op.generation)
    × (t.health.last_code ≡ "PANIC")
    × (t.health.last_error ≡ "nil map")
    × ((r : OperationResult) × (t.last ≡ some r)
        × (r.succeeded ≡ false)
        × (r.error_message ≡ "nil map")
        × (r.error_code ≡ "PANIC"))
panic_ends_example = panic_ends env routine.op "nil map" started.state refl

abbrev no_core : CallResult
no_core = record { report = none; error = some (plain_error "no core") }

launch_error_ends_example :
    let t =
      finish env routine.op (returned (launched env desired routine.op no_core)) started.state in
    (t.applied.phase ≡ phase_of_code (health_from_error (plain_error "no core") env.now).last_code)
    × (t.health ≡ health_from_error (plain_error "no core") env.now)
    × (t.applied.generation ≡ routine.op.generation)
    × ((r : OperationResult) × (t.last ≡ some r)
        × (r.succeeded ≡ false)
        × (r.error_message ≡ "no core"))
launch_error_ends_example =
    launch_error_ends env env started.state desired routine.op no_core (plain_error "no core") refl
      refl

launch_success_ends_example :
    let t =
      finish env routine.op
        (returned (launched env desired routine.op (record { report = none; error = none })))
        started.state in
    (t.applied.phase ≡ phase_from_health ready healthy)
    × ((t.applied.phase ≡ healthy) ↔ (
        (is_zero ready.checked_at ≡ true)
        ⊎ ((is_operational ready ≡ true)
            ⊎ ((is_healthy ready ≡ false) × (code_phase ready.last_code ≡ none)))))
    × (is_zero ready.checked_at ≡ false → t.health ≡ ready)
    × (t.applied.started_at ≡ routine.op.started_at)
    × ((r : OperationResult) × (t.last ≡ some r) × (r.succeeded ≡ true))
launch_success_ends_example =
    launch_success_ends env env started.state desired routine.op
      (record { report = none; error = none }) refl

stop_ends_example :
    let c = run_stop env "ROOT_TPROXY" started.state.applied routine.op in
    (c.err ≡ none)
    × ((c.applied.phase ≡ failed) ↔ (
        (backend.stop ≢ none)
        × (is_stopped started.state.applied.phase ≡ false)
        × (str_eq (clean_report routine.op.generation).status "ok" ≡ false)))
    × ((c.applied.phase ≡ failed) ⊎ (c.applied.phase ≡ stopped))
stop_ends_example = stop_ends env "ROOT_TPROXY" started.state.applied routine.op

abbrev dns_stage : OperationStep
dns_stage = record { name = "dns"; status = "failed"; code = "DNS_APPLY_FAILED"; detail = "" }
