-- ===== src/Runtime/Laws/Sections.antt =====
-- What each locked section of orchestrator.go does to the operation in flight and to the applied
-- state, stated once so that the proofs above keep the sections shut.
use rknno_vpn.Prelude.{
  ℕ, String, ◌≡◌, refl, Option, none, some, arith, Bool-cases, inl, inr, ap, ◌∙◌,
}
use rknno_vpn.Runtime.Types.{
  BackendKind, Phase, starting, OperationKind, AppliedState, OperationStatus, OperationLogEvent,
  OperationBusyError, Status, GoError,
}
use rknno_vpn.Runtime.State.{Env, Orchestrator, log_locked, log_stuck, notify, busy}
use rknno_vpn.Runtime.Engine.{next_generation, new_operation, submit}
use rknno_vpn.Runtime.Commands.{
  Task, CommandError, Reply, idle, refused, accepted, refuse, accept, start, stop, restart, reset,
  handle_network_change, run_operation, launch, Lookup, found, missing, with_backend, if_idle,
  launch_on, refuse_with_health, network_change_idle, is_stopped,
}

pub log_locked_keeps :
    (event : OperationLogEvent) (o : Orchestrator)
    → ((log_locked event o).active ≡ o.active) × ((log_locked event o).applied ≡ o.applied)
unfolding log_locked
log_locked_keeps event o = ground arith

pub log_stuck_keeps :
    (env : Env) (o : Orchestrator)
    → ((log_stuck env o).active ≡ o.active) × ((log_stuck env o).applied ≡ o.applied)
unfolding log_stuck
log_stuck_keeps env o = ground arith

pub notify_keeps :
    (env : Env) (o : Orchestrator)
    → ((notify env o).active ≡ o.active) × ((notify env o).applied ≡ o.applied)
unfolding notify
notify_keeps env o = ground arith

pub submit_lem :
    (env : Env) (op : OperationStatus) (configure : OperationStatus → AppliedState)
    (o : Orchestrator)
    → ((submit env op configure o).active ≡ some op)
      × ((submit env op configure o).applied ≡ configure op)
unfolding submit
submit_lem env op configure o = ground arith

-- A reply that starts no goroutine.
abbrev pub IsQuiet : Reply → Type 0
IsQuiet (idle status) = Unit {0}
IsQuiet (refused status err) = Unit {0}
IsQuiet (accepted status op task) = ⊥

-- What a method that may submit did: it left what is in flight and what is applied alone, or it
-- submitted where nothing was in flight.
pub data Outcome (o : Orchestrator) (r : Orchestrator × Reply) : Type 0 where
  kept : IsQuiet r.1 → r.0.active ≡ o.active → r.0.applied ≡ o.applied → Outcome o r
  submitted :
      {status : Status} {op : OperationStatus} {task : Task}
      → r.1 ≡ accepted status op task
      → o.active ≡ none
      → r.0.active ≡ some op
      → r.0.applied.generation ≡ op.generation
      → op.generation ≡ next_generation o.applied.generation
      → Outcome o r

busy-none : (o : Orchestrator) (now : ℕ) → busy o now ≡ none → o.active ≡ none
unfolding busy
busy-none o now h = ground arith

refuse-Outcome :
    (env : Env) (err : CommandError) (o o' : Orchestrator)
    → o'.active ≡ o.active
    → o'.applied ≡ o.applied
    → Outcome o (refuse env err o')
unfolding refuse
refuse-Outcome env err o o' a b =
    kept tt ((log_stuck_keeps env o').0 ∙ a) ((log_stuck_keeps env o').1 ∙ b)

refuse_with_health-Outcome :
    (env : Env) (message : String) (o : Orchestrator) → Outcome o (refuse_with_health env message o)
unfolding refuse_with_health
refuse_with_health-Outcome env message o = refuse-Outcome env _ o _ refl refl

accept-Outcome :
    (env : Env) (kind : OperationKind) (phase : Phase) (configure : OperationStatus → AppliedState)
    (task : Task) (o : Orchestrator)
    → ((op : OperationStatus) → (configure op).generation ≡ op.generation)
    → o.active ≡ none
    → Outcome o (accept env kind phase configure task o)
unfolding new_operation accept
accept-Outcome env kind phase configure task o g h =
    let op = new_operation env kind phase o in
    let law = submit_lem env op configure o in
    submitted refl h law.0 (ap (λ (a : AppliedState). a.generation) law.1 ∙ g op) refl

if_idle-Outcome :
    (env : Env) (o : Orchestrator) (e : Option OperationBusyError) (rest : Orchestrator × Reply)
    → busy o env.now ≡ e
    → (o.active ≡ none → Outcome o rest)
    → Outcome o (if_idle env o e rest)
unfolding if_idle
if_idle-Outcome env o none rest e h = h (busy-none o env.now e)
if_idle-Outcome env o (some err) rest e h = refuse-Outcome env _ o o refl refl

with_backend-Outcome :
    (env : Env) (o : Orchestrator) (l : Lookup) (rest : BackendKind → Orchestrator × Reply)
    → ((k : BackendKind) → Outcome o (rest k))
    → Outcome o (with_backend env o l rest)
unfolding with_backend
with_backend-Outcome env o (missing message) rest h = refuse_with_health-Outcome env message o
with_backend-Outcome env o (found k) rest h = h k

launch_on-Outcome :
    (env : Env) (kind : OperationKind) (task : Task) (o : Orchestrator) (k : BackendKind)
    → o.active ≡ none
    → Outcome o (launch_on env kind task o k)
unfolding launch_on
launch_on-Outcome env kind task o k free = elim (Bool-cases (env.backend k).supported) [
  | inl e ↦ rw e (accept-Outcome env kind starting _ task o (λ op. refl) free)
  | inr e ↦ rw e (refuse_with_health-Outcome env _ o)
]

launch-Outcome :
    (env : Env) (kind : OperationKind) (task : Task) (o : Orchestrator)
    → Outcome o (launch env kind task o)
unfolding launch
launch-Outcome env kind task o =
    if_idle-Outcome env o _ _ refl
      λ free. with_backend-Outcome env o _ _ λ k. launch_on-Outcome env kind task o k free

pub start-Outcome : (env : Env) (o : Orchestrator) → Outcome o (start env o)
unfolding start
start-Outcome env o = launch-Outcome env _ _ o

pub restart-Outcome : (env : Env) (o : Orchestrator) → Outcome o (restart env o)
unfolding restart
restart-Outcome env o = launch-Outcome env _ _ o

pub stop-Outcome : (env : Env) (o : Orchestrator) → Outcome o (stop env o)
unfolding stop
stop-Outcome env o =
    if_idle-Outcome env o _ _ refl
      λ free. with_backend-Outcome env o _ _ λ k. accept-Outcome env _ _ _ _ o (λ op. refl) free

pub reset-Outcome : (env : Env) (o : Orchestrator) → Outcome o (reset env o)
unfolding reset
reset-Outcome env o =
    if_idle-Outcome env o _ _ refl
      λ free. with_backend-Outcome env o _ _ λ k. accept-Outcome env _ _ _ _ o (λ op. refl) free

network_change_idle-Outcome :
    (env : Env) (o : Orchestrator) → o.active ≡ none → Outcome o (network_change_idle env o)
unfolding network_change_idle
network_change_idle-Outcome env o free = elim (Bool-cases (is_stopped o.applied.phase)) [
  | inl e ↦ rw e (kept tt (log_stuck_keeps env o).0 (log_stuck_keeps env o).1)
  | inr e ↦
      rw e (with_backend-Outcome env o _ _ λ k. accept-Outcome env _ _ _ _ o (λ op. refl) free)
]

pub network-Outcome : (env : Env) (o : Orchestrator) → Outcome o (handle_network_change env o)
unfolding handle_network_change
network-Outcome env o =
    if_idle-Outcome env o _ _ refl λ free. network_change_idle-Outcome env o free

pub run_operation-Outcome :
    (env : Env) (kind : OperationKind) (phase : Phase) (fn : ℕ → Option GoError) (o : Orchestrator)
    → Outcome o (run_operation env kind phase fn o)
unfolding run_operation
run_operation-Outcome env kind phase fn o =
    if_idle-Outcome env o _ _ refl λ free. accept-Outcome env _ _ _ _ o (λ op. refl) free
