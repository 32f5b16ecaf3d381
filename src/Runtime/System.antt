-- ===== src/Runtime/System.antt =====
-- The orchestrator with its goroutines: every interleaving of calls, of locked sections of the
-- methods that submit nothing, and of the submitted operations (orchestrator.go).
pub mod Invariant
pub mod Progress
use rknno_vpn.Prelude.{ℕ, String, Bool, List, [], ◌∷◌, ◌++◌, ◌≡◌, Option, none, some, if◌then◌else◌}
use rknno_vpn.Runtime.Types.{
  BackendKind, Phase, OperationKind, DesiredState, OperationStatus, HealthSnapshot, GoError,
  CompatibilityStatus,
}
use rknno_vpn.Runtime.State.{Env, Orchestrator, log_stuck}
use rknno_vpn.Runtime.Engine.{Ending, returned, panicked, finish}
use rknno_vpn.Runtime.Commands.{Task, Reply, idle, refused, accepted}
use rknno_vpn.Runtime.Commands
use rknno_vpn.Runtime.Tasks.{run_task}
use rknno_vpn.Runtime.Updates

-- The methods that may submit an operation.
pub data Command : Type 0 where
  start stop restart reset network_change : Command
  operation : OperationKind → Phase → (ℕ → Option GoError) → Command

unfoldable pub command : Env → Command → Orchestrator → Orchestrator × Reply
command env start o = Commands.start env o
command env stop o = Commands.stop env o
command env restart o = Commands.restart env o
command env reset o = Commands.reset env o
command env network_change o = Commands.handle_network_change env o
command env (operation kind phase fn) o = Commands.run_operation env kind phase fn o

-- The locked sections of the other methods that change the state.
pub data Update : Type 0 where
  watchdog : ℕ → Update
  logger observer : Bool → Update
  compatible : CompatibilityStatus → Update
  step_of : ℕ → String → String → String → String → Update
  desire : DesiredState → Update
  read_status progress_begin health_begin : Update
  progress_end health_end : HealthSnapshot → Update

unfoldable pub update : Env → Update → Orchestrator → Orchestrator
update env (watchdog after) o = Updates.set_operation_watchdog after o
update env (logger present) o = Updates.set_operation_logger present o
update env (observer present) o = Updates.set_status_observer present o
update env (compatible c) o = Updates.set_compatibility env c o
update env (step_of generation name status code detail) o =
    (Updates.set_active_operation_step env generation name status code detail o).0
update env (desire desired) o = (Updates.apply_desired_state env desired o).0
update env read_status o = (Updates.status env o).0
update env progress_begin o = (Updates.refresh_progress_begin env o).0
update env health_begin o = (Updates.refresh_health_begin env o).0
update env (progress_end health) o = Updates.refresh_progress_end env health o
update env (health_end health) o = Updates.refresh_health_end env health o

-- A goroutine of `runSubmittedOperation`: `ending` is how its `run` ended, once it has.
pub record Goroutine : Type 0 where
  pub op : OperationStatus
  pub task : Task
  pub ending : Option Ending

pub record System : Type 0 where
  pub state : Orchestrator
  pub routines : List Goroutine

-- The goroutine that a reply starts.
abbrev pub spawn : Reply → List Goroutine → List Goroutine
spawn (idle status) routines = routines
spawn (refused status err) routines = routines
spawn (accepted status op task) routines = record { op = op; task = task; ending = none } ∷ routines

abbrev pub call : Env → Command → System → System
call env c s = record {
  state = (command env c s.state).0;
  routines = spawn (command env c s.state).1 s.routines;
}

-- The goroutine with its `run` ended.
abbrev pub ended : Goroutine → Ending → Goroutine
ended r ending = record r { ending = some ending }

pub data Step (s t : System) : Type 0 where
  calls : (env : Env) (c : Command) → t ≡ call env c s → Step s t
  updates : (env : Env) (u : Update) → t ≡ record s { state = update env u s.state } → Step s t
  returns :
      (env : Env) (before after : List Goroutine) (r : Goroutine)
      → s.routines ≡ before ++ r ∷ after
      → r.ending ≡ none
      → t ≡ record s {
        routines = before ++ ended r (returned (run_task env s.state r.task r.op)) ∷ after;
      }
      → Step s t
  panics :
      (message : String) (before after : List Goroutine) (r : Goroutine)
      → s.routines ≡ before ++ r ∷ after
      → r.ending ≡ none
      → t ≡ record s { routines = before ++ ended r (panicked message) ∷ after }
      → Step s t
  finishes :
      (env : Env) (before after : List Goroutine) (r : Goroutine) (ending : Ending)
      → s.routines ≡ before ++ r ∷ after
      → r.ending ≡ some ending
      → t ≡ record { state = finish env r.op ending s.state; routines = before ++ after }
      → Step s t

pub data Reach (s : System) : System → Type 0 where
  at_start : Reach s s
  moved : {t u : System} → Reach s t → Step t u → Reach s u

abbrev pub initial : DesiredState → List BackendKind → CompatibilityStatus → System
initial desired backends compatibility = record {
  state = Updates.new_orchestrator desired backends compatibility;
  routines = [];
}
