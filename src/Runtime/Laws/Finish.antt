-- ===== src/Runtime/Laws/Finish.antt =====
-- What the end of an operation does (orchestrator.go, the `run` closures and finishOperationLocked).
use rknno_vpn.Prelude.{ℕ, ◌+◌, ◌<◌, ◌^◌, ◌≡◌, refl, Option, none, some, arith, ap, ◌∙◌}
use rknno_vpn.Runtime.Types.{OperationStatus, AppliedState, DesiredState, OperationKind, GoError}
use rknno_vpn.Runtime.State.{Env, Orchestrator, CallResult, log_locked, notify}
use rknno_vpn.Runtime.Laws.Sections.{notify_keeps}
use rknno_vpn.Runtime.Engine.{
  Completion, Ending, returned, panicked, completion_of, panic_completion, finish_operation, finish,
  next_generation, operation_result,
}
use rknno_vpn.Runtime.Commands.{
  Task, start_run, restart_run, stop_run, reset_run, network_run, operation_run,
}
use rknno_vpn.Runtime.Tasks.{
  run_task, launched, run_stop, run_reset, run_network_change, run_callback, operation_applied,
}

abbrev pub HasGeneration : OperationStatus → Completion → Type 0
HasGeneration op completion = completion.applied.generation ≡ op.generation

pub launched-HasGeneration :
    (env : Env) (desired : DesiredState) (op : OperationStatus) (result : CallResult)
    → HasGeneration op (launched env desired op result)
unfolding launched
launched-HasGeneration env desired op result = ground arith

run_callback-HasGeneration :
    (env : Env) (o : Orchestrator) (kind : OperationKind) (active : AppliedState)
    (op : OperationStatus) (err : Option GoError)
    → HasGeneration op (run_callback env o kind active op err)
unfolding run_callback operation_applied
run_callback-HasGeneration env o kind active op none = ground arith
run_callback-HasGeneration env o kind active op (some err) = refl

-- Every closure completes with the generation of its operation.
pub run_task-HasGeneration :
    (env : Env) (o : Orchestrator) (task : Task) (op : OperationStatus)
    → HasGeneration op (run_task env o task op)
unfolding run_task run_stop run_reset run_network_change
run_task-HasGeneration env o (start_run desired) op = launched-HasGeneration env desired op _
run_task-HasGeneration env o (restart_run desired) op = launched-HasGeneration env desired op _
run_task-HasGeneration env o (stop_run kind active) op = ground arith
run_task-HasGeneration env o (reset_run kind desired) op = refl
run_task-HasGeneration env o (network_run active) op = refl
run_task-HasGeneration env o (operation_run kind active fn) op =
    run_callback-HasGeneration env o kind active op (fn op.generation)

abbrev pub EndsWith : OperationStatus → Ending → Type 0
EndsWith op (returned completion) = HasGeneration op completion
EndsWith op (panicked message) = Unit {0}

completion_of-HasGeneration :
    (env : Env) (op : OperationStatus) (ending : Ending) (o : Orchestrator)
    → EndsWith op ending
    → HasGeneration op (completion_of env op ending o)
unfolding completion_of panic_completion
completion_of-HasGeneration env op (returned completion) o h = h
completion_of-HasGeneration env op (panicked message) o h = refl

finish_operation-clears :
    (env : Env) (op a : OperationStatus) (completion : Completion) (o : Orchestrator)
    → o.active ≡ some a
    → op.operation_id ≡ a.operation_id
    → (finish_operation env op completion o).active ≡ none
unfolding finish_operation
finish_operation-clears env op a completion o e same = ground arith

finish_operation-generation :
    (env : Env) (op : OperationStatus) (completion : Completion) (o : Orchestrator)
    → op.generation ≡ o.applied.generation
    → HasGeneration op completion
    → (finish_operation env op completion o).applied.generation ≡ o.applied.generation
unfolding finish_operation
finish_operation-generation env op completion o e h = ground arith

pub next_generation_bounds : (g : ℕ) → (0 < next_generation g) × (next_generation g < 2 ^ 63)
unfolding next_generation
next_generation_bounds g = ground arith

pub next_generation-suc : (g : ℕ) → g + 1 < 2 ^ 63 → next_generation g ≡ g + 1
unfolding next_generation
next_generation-suc g h = ground arith

pub finish-clears :
    (env : Env) (op a : OperationStatus) (ending : Ending) (o : Orchestrator)
    → o.active ≡ some a
    → op.operation_id ≡ a.operation_id
    → (finish env op ending o).active ≡ none
unfolding finish
finish-clears env op a ending o e same =
    (notify_keeps env _).0
    ∙ finish_operation-clears env op a (completion_of env op ending o) o e same

pub finish-generation :
    (env : Env) (op : OperationStatus) (ending : Ending) (o : Orchestrator)
    → op.generation ≡ o.applied.generation
    → EndsWith op ending
    → (finish env op ending o).applied.generation ≡ o.applied.generation
unfolding finish
finish-generation env op ending o e h =
    ap (λ (a : AppliedState). a.generation) (notify_keeps env _).1
    ∙ finish_operation-generation env op (completion_of env op ending o) o e
        (completion_of-HasGeneration env op ending o h)

pub finish-last :
    (env : Env) (op : OperationStatus) (ending : Ending) (o : Orchestrator)
    → (finish env op ending o).last
      ≡ some (operation_result op (completion_of env op ending o) env.now)
unfolding finish finish_operation log_locked notify
finish-last env op ending o = ground arith
