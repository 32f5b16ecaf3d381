-- ===== src/Runtime/Tasks.antt =====
-- What a submitted operation computes (orchestrator.go, the `run` closures of the methods).
use rknno_vpn.Prelude.{
  String, Bool, true, false, not, ◌&&◌, ◌||◌, [], ◌∷◌, Option, none, some, ltb, is_nil, is_some,
  str_eq, if◌then◌else◌,
}
use rknno_vpn.Runtime.Types.{
  is_zero, BackendKind, backend_root_tproxy, stopped, healthy, degraded, failed, OperationKind,
  DesiredState, AppliedState, OperationStatus, HealthSnapshot, GoError, plain_error, ResetReport,
}
use rknno_vpn.Runtime.Errors.{
  no_health, health_with_error, reset_report_from_error, first_reset_report, health_from_error,
  first_error,
}
use rknno_vpn.Runtime.Phase.{phase_from_health}
use rknno_vpn.Runtime.State.{Backend, Env, Orchestrator, CallResult, or_text}
use rknno_vpn.Runtime.Engine.{Completion}
use rknno_vpn.Runtime.Commands.{
  Task, start_run, restart_run, stop_run, reset_run, network_run, operation_run, is_stopped,
}

-- The backend that `backendForLocked` found for the closure.
abbrev pub backend_of : Env → BackendKind → Backend
backend_of env kind = env.backend (or_text kind backend_root_tproxy)

-- The closures of `Start` and `Restart`, behind the backend's call.
unfoldable pub launched : Env → DesiredState → OperationStatus → CallResult → Completion
unfolding phase_from_health health_from_error reset_report_from_error
launched env desired op result = elim result.error [
  | some err ↦
      let health = health_from_error err env.now in
      record {
        err = some err;
        health = health;
        reset_report = elim (reset_report_from_error (some err)) [
          | some report ↦ some report
          | none ↦ result.report
        ];
        applied = record {
          backend_kind = desired.backend_kind;
          phase = phase_from_health health failed;
          active_profile_id = desired.active_profile_id;
          started_at = 0;
          generation = op.generation;
        };
      }
  | none ↦
      let health = (backend_of env desired.backend_kind).refresh_health in
      record {
        err = none;
        health = health;
        reset_report = result.report;
        applied = record {
          backend_kind = desired.backend_kind;
          phase = phase_from_health health healthy;
          active_profile_id = desired.active_profile_id;
          started_at = op.started_at;
          generation = op.generation;
        };
      }
]

-- The end of the closure of `Stop`: the runtime is stopped, with the error of `backend.Stop`.
unfoldable pub stop_done :
    Env
    → BackendKind
    → AppliedState
    → OperationStatus
    → Option GoError
    → Option ResetReport
    → Completion
stop_done env kind active op stop_err report = record {
  err = stop_err;
  health = record no_health {
    last_error = elim stop_err [ none ↦ "" | some err ↦ err.message ];
    checked_at = env.now;
  };
  reset_report = report;
  applied = record {
    backend_kind = kind;
    phase = stopped;
    active_profile_id = active.active_profile_id;
    started_at = 0;
    generation = op.generation;
  };
}

-- The return of that closure where the reset after a failed stop did not end "ok".
unfoldable pub stop_failed :
    Env → AppliedState → OperationStatus → GoError → ResetReport → Completion
stop_failed env active op err report = record {
  err = some err;
  health = health_with_error err.message env.now;
  reset_report = some report;
  applied = record {
    backend_kind = active.backend_kind;
    phase = failed;
    active_profile_id = active.active_profile_id;
    started_at = active.started_at;
    generation = op.generation;
  };
}

unfoldable pub run_stop : Env → BackendKind → AppliedState → OperationStatus → Completion
unfolding stop_done stop_failed
run_stop env kind active op =
    let backend = backend_of env kind in
    elim backend.stop [
      | none ↦ stop_done env kind active op none none
      | some err ↦
          let report = backend.reset op.generation in
          if is_stopped active.phase
          then stop_done env kind active op (some err) none
          else if str_eq report.status "ok"
          then stop_done env kind active op (some err) (some report)
          else stop_failed env active op err report
    ]

-- The message of a reset that failed; `none` where it did not.
unfoldable pub reset_failure : ResetReport → Option String
unfolding first_error
reset_failure report =
    if not (is_nil report.errors) || str_eq report.status "partial" || str_eq report.status "failed"
    then some (or_text (first_error report.errors) "reset failed")
    else none

unfoldable pub run_reset : Env → BackendKind → DesiredState → OperationStatus → Completion
unfolding reset_failure
run_reset env kind desired op =
    let report = (backend_of env kind).reset op.generation in
    let failure = reset_failure report in
    record {
      err = elim failure [ none ↦ none | some message ↦ some (plain_error message) ];
      health = record no_health {
        last_error = elim failure [ none ↦ "" | some message ↦ message ];
        checked_at = env.now;
      };
      reset_report = some report;
      applied = record {
        backend_kind = kind;
        phase = stopped;
        active_profile_id = desired.active_profile_id;
        started_at = 0;
        generation = op.generation;
      };
    }

-- The health that the closure of `HandleNetworkChange` completes with.
unfoldable pub network_health : Env → HealthSnapshot → Option GoError → HealthSnapshot
network_health env health none = health
network_health env health (some err) = record health {
  last_error = or_text health.last_error err.message;
  checked_at = if is_zero health.checked_at then env.now else health.checked_at;
}

unfoldable pub run_network_change : Env → AppliedState → OperationStatus → Completion
unfolding network_health phase_from_health first_reset_report reset_report_from_error
run_network_change env active op =
    let backend = backend_of env active.backend_kind in
    let result = backend.handle_network_change op.generation in
    let current = backend.current_health in
    let health = if is_zero current.checked_at then backend.refresh_health else current in
    record {
      err = result.error;
      health = network_health env health result.error;
      applied = record {
        backend_kind = active.backend_kind;
        phase = if is_some result.error then degraded else phase_from_health health healthy;
        active_profile_id = active.active_profile_id;
        started_at = active.started_at;
        generation = op.generation;
      };
      reset_report = first_reset_report (result.report ∷ reset_report_from_error result.error ∷ []);
    }

unfoldable pub applies_desired : OperationKind → Bool
applies_desired OperationKind.config_mutation = true
applies_desired OperationKind.profile_apply = true
applies_desired OperationKind.apply_desired_state = true
applies_desired OperationKind.reload = true
applies_desired _ = false

abbrev pub is_update_install : OperationKind → Bool
is_update_install OperationKind.update_install = true
is_update_install _ = false

-- The applied state of an operation of `RunOperation` that succeeded; `o` is the state in which the
-- closure reads the health and the desired state.
unfoldable pub operation_applied :
    Orchestrator → OperationKind → AppliedState → OperationStatus → AppliedState
unfolding applies_desired phase_from_health
operation_applied o kind active op =
    if is_update_install kind
    then record active { phase = stopped; generation = op.generation }
    else if applies_desired kind
    then record {
      backend_kind = or_text o.desired.backend_kind active.backend_kind;
      phase = phase_from_health o.health healthy;
      active_profile_id = o.desired.active_profile_id;
      started_at = op.started_at;
      generation = op.generation;
    }
    else if not (is_zero o.health.checked_at) && not (ltb o.health.checked_at op.started_at)
    then record active { phase = phase_from_health o.health healthy; generation = op.generation }
    else record active { generation = op.generation }

unfoldable pub run_callback :
    Env
    → Orchestrator
    → OperationKind
    → AppliedState
    → OperationStatus
    → Option GoError
    → Completion
unfolding operation_applied health_from_error reset_report_from_error phase_from_health
run_callback env o kind active op none = record {
  err = none;
  health = no_health;
  applied = operation_applied o kind active op;
  reset_report = none;
}
run_callback env o kind active op (some err) =
    let health = health_from_error err env.now in
    record {
      err = some err;
      health = health;
      reset_report = reset_report_from_error (some err);
      applied = record active {
        phase = phase_from_health health failed;
        generation = op.generation;
      };
    }

-- The `run` closure of a task, in the state `o` that it may read under the mutex.
unfoldable pub run_task : Env → Orchestrator → Task → OperationStatus → Completion
unfolding launched run_stop run_reset run_network_change run_callback
run_task env o (start_run desired) op =
    launched env desired op ((backend_of env desired.backend_kind).start desired op.generation)
run_task env o (restart_run desired) op =
    launched env desired op ((backend_of env desired.backend_kind).restart desired op.generation)
run_task env o (stop_run kind active) op = run_stop env kind active op
run_task env o (reset_run kind desired) op = run_reset env kind desired op
run_task env o (network_run active) op = run_network_change env active op
run_task env o (operation_run kind active fn) op =
    run_callback env o kind active op (fn op.generation)
