-- ===== src/Runtime/Commands.antt =====
-- The orchestrator's methods (orchestrator.go). A method that submits an operation returns its
-- operation and its task: the closure that the goroutine runs, with the variables it captures.
use rknno_vpn.Prelude.{ℕ, String, Bool, true, false, not, Option, none, some, concat, if◌then◌else◌}
use rknno_vpn.Runtime.Types.{
  Time, BackendKind, backend_root_tproxy, Phase, stopped, applying, starting, stopping, resetting,
  OperationKind, DesiredState, AppliedState, OperationStatus, Status, OperationBusyError, GoError,
}
use rknno_vpn.Runtime.Errors.{health_with_error}
use rknno_vpn.Runtime.State.{Env, Orchestrator, contains, or_text, busy, snapshot, log_stuck}
use rknno_vpn.Runtime.Engine.{new_operation, submit, is_unset}

-- The closures.
pub data Task : Type 0 where
  start_run : DesiredState → Task
  restart_run : DesiredState → Task
  stop_run : BackendKind → AppliedState → Task
  reset_run : BackendKind → DesiredState → Task
  network_run : AppliedState → Task
  operation_run : OperationKind → AppliedState → (ℕ → Option GoError) → Task

pub data CommandError : Type 0 where
  busy_error : OperationBusyError → CommandError
  failure : String → CommandError

-- What a method returns: a status alone, a status with an error, or a status and the goroutine.
pub data Reply : Type 0 where
  idle : Status → Reply
  refused : Status → CommandError → Reply
  accepted : Status → OperationStatus → Task → Reply

-- `backendForLocked`: the kind under which the backend is registered, or the error's message.
pub data Lookup : Type 0 where
  found : BackendKind → Lookup
  missing : String → Lookup

unfoldable pub backend_for : Orchestrator → BackendKind → Lookup
backend_for o kind =
    let k = or_text kind backend_root_tproxy in
    if contains o.backends k
    then found k
    else missing (concat "backend " (concat k " is not registered"))

-- `status := o.statusLocked()` and the return of it with an error.
unfoldable pub refuse : Env → CommandError → Orchestrator → Orchestrator × Reply
refuse env err o = (log_stuck env o, refused (snapshot env o) err)

-- The same after `o.health = HealthSnapshot{LastError: …, CheckedAt: time.Now()}`.
unfoldable pub refuse_with_health : Env → String → Orchestrator → Orchestrator × Reply
refuse_with_health env message o =
    refuse env (failure message) (record o { health = health_with_error message env.now })

-- The end of a method that submits.
unfoldable pub accept :
    Env
    → OperationKind
    → Phase
    → (OperationStatus → AppliedState)
    → Task
    → Orchestrator
    → Orchestrator × Reply
accept env kind phase configure task o =
    let op = new_operation env kind phase o in
    let begun = submit env op configure o in (begun, accepted (snapshot env begun) op task)

-- The test that opens every method that may submit.
unfoldable pub if_idle :
    Env → Orchestrator → Option OperationBusyError → Orchestrator × Reply → Orchestrator × Reply
if_idle env o (some err) rest = refuse env (busy_error err) o
if_idle env o none rest = rest

abbrev pub unless_busy : Env → Orchestrator → Orchestrator × Reply → Orchestrator × Reply
unless_busy env o rest = if_idle env o (busy o env.now) rest

-- A backend that is not registered is the error; the state takes its message.
unfoldable pub with_backend :
    Env → Orchestrator → Lookup → (BackendKind → Orchestrator × Reply) → Orchestrator × Reply
with_backend env o (missing message) rest = refuse_with_health env message o
with_backend env o (found k) rest = rest k

-- The applied state of an operation that sets the runtime up or takes it down.
abbrev pub in_phase : BackendKind → Phase → String → Time → OperationStatus → AppliedState
in_phase kind phase profile started_at op = record {
  backend_kind = kind;
  phase = phase;
  active_profile_id = profile;
  started_at = started_at;
  generation = op.generation;
}

-- The applied state of an operation that keeps the rest of it.
abbrev pub moved_to : AppliedState → Phase → OperationStatus → AppliedState
moved_to applied phase op = record applied { phase = phase; generation = op.generation }

-- `Start` and `Restart`, which have the same text but for the kind and the closure, behind the
-- backend's look-up.
unfoldable pub launch_on :
    Env → OperationKind → Task → Orchestrator → BackendKind → Orchestrator × Reply
launch_on env kind task o k =
    if not (env.backend k).supported
    then refuse_with_health env (env.backend k).reason o
    else accept env kind starting
        (in_phase o.desired.backend_kind starting o.desired.active_profile_id 0) task o

unfoldable pub launch : Env → OperationKind → Task → Orchestrator → Orchestrator × Reply
launch env kind task o =
    unless_busy env o
      (with_backend env o (backend_for o o.desired.backend_kind) (launch_on env kind task o))

unfoldable pub start : Env → Orchestrator → Orchestrator × Reply
start env o = launch env OperationKind.start (start_run o.desired) o

unfoldable pub restart : Env → Orchestrator → Orchestrator × Reply
restart env o = launch env OperationKind.restart (restart_run o.desired) o

-- The kind of what is applied, or else of what is desired.
abbrev pub applied_kind : Orchestrator → BackendKind
applied_kind o = or_text o.applied.backend_kind o.desired.backend_kind

unfoldable pub stop : Env → Orchestrator → Orchestrator × Reply
stop env o = unless_busy env o (
    with_backend env o (backend_for o (applied_kind o)) (λ k.
      accept env OperationKind.stop stopping
        (in_phase (applied_kind o) stopping o.applied.active_profile_id o.applied.started_at)
        (stop_run (applied_kind o) o.applied) o))

unfoldable pub reset : Env → Orchestrator → Orchestrator × Reply
reset env o = unless_busy env o (
    with_backend env o (backend_for o (applied_kind o)) (λ k.
      accept env OperationKind.reset resetting
        (in_phase (applied_kind o) resetting o.applied.active_profile_id 0)
        (reset_run (applied_kind o) o.desired) o))

abbrev pub is_stopped : Phase → Bool
is_stopped stopped = true
is_stopped _ = false

-- `HandleNetworkChange` behind the busy test.
unfoldable pub network_change_idle : Env → Orchestrator → Orchestrator × Reply
network_change_idle env o =
    if is_stopped o.applied.phase
    then (log_stuck env o, idle (snapshot env o))
    else with_backend env o (backend_for o o.applied.backend_kind) (λ k.
      accept env OperationKind.network_change starting (moved_to o.applied starting)
        (network_run o.applied) o)

unfoldable pub handle_network_change : Env → Orchestrator → Orchestrator × Reply
handle_network_change env o = unless_busy env o (network_change_idle env o)

abbrev pub phase_or_applying : Phase → Phase
phase_or_applying phase = if is_unset phase then applying else phase

unfoldable pub run_operation :
    Env → OperationKind → Phase → (ℕ → Option GoError) → Orchestrator → Orchestrator × Reply
run_operation env kind phase fn o = unless_busy env o (
    accept env kind (phase_or_applying phase) (moved_to o.applied (phase_or_applying phase))
      (operation_run kind o.applied fn) o)
