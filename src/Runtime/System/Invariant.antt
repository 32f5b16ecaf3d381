-- ===== src/Runtime/System/Invariant.antt =====
-- One operation at a time, in every interleaving (orchestrator.go).
use rknno_vpn.Prelude.{
  ◌<◌, ◌^◌, ◌≡◌, refl, sym, ap, ◌∙◌, Option, none, some, List, [], ◌∷◌, ◌++◌, arith, subst,
}
use rknno_vpn.Runtime.Types.{
  OperationStatus, AppliedState, BackendKind, DesiredState, CompatibilityStatus,
}
use rknno_vpn.Runtime.State.{Env, Orchestrator}
use rknno_vpn.Runtime.Engine.{Ending}
use rknno_vpn.Runtime.Commands.{Reply, idle, refused, accepted}
use rknno_vpn.Runtime.Laws.Sections.{
  Outcome, kept, submitted, IsQuiet, start-Outcome, stop-Outcome, restart-Outcome, reset-Outcome,
  network-Outcome, run_operation-Outcome,
}
use rknno_vpn.Runtime.Laws.Updates.{IsSame, IsSame-refl, Keeps, update-Keeps}
use rknno_vpn.Runtime.Laws.Finish.{
  EndsWith, run_task-HasGeneration, finish-clears, finish-generation, next_generation_bounds,
}
use rknno_vpn.Runtime.Updates.{new_orchestrator}
use rknno_vpn.Runtime.System.{
  Command, start, stop, restart, reset, network_change, operation, command, update, Goroutine,
  System, spawn, call, Step, calls, updates, returns, panics, finishes, Reach, at_start, moved,
  initial,
}

-- The goroutine runs the operation in flight.
pub record Runs (o : Orchestrator) (op : OperationStatus) : Type 0 where
  pub in_flight : OperationStatus
  pub flies : o.active ≡ some in_flight
  pub same_id : op.operation_id ≡ in_flight.operation_id
  pub same_kind : op.kind ≡ in_flight.kind
  pub same_generation : op.generation ≡ in_flight.generation
  pub applied_generation : op.generation ≡ o.applied.generation

-- A goroutine whose `run` has ended completes with its own generation.
abbrev pub Ends : OperationStatus → Option Ending → Type 0
Ends op none = Unit {0}
Ends op (some ending) = EndsWith op ending

-- No operation is in flight and there is no goroutine, or one is and there is one, which runs it.
abbrev pub Exclusive : Orchestrator → List Goroutine → Type 0
Exclusive o [] = o.active ≡ none
Exclusive o (r ∷ []) = Runs o r.op × Ends r.op r.ending
Exclusive o (r ∷ q ∷ rs) = ⊥

pub record Inv (s : System) : Type 0 where
  pub exclusive : Exclusive s.state s.routines
  pub bounded : s.state.applied.generation < 2 ^ 63

pub command-Outcome : (env : Env) (c : Command) (o : Orchestrator) → Outcome o (command env c o)
unfolding command
command-Outcome env start o = start-Outcome env o
command-Outcome env stop o = stop-Outcome env o
command-Outcome env restart o = restart-Outcome env o
command-Outcome env reset o = reset-Outcome env o
command-Outcome env network_change o = network-Outcome env o
command-Outcome env (operation kind phase fn) o = run_operation-Outcome env kind phase fn o

IsSame-some :
    (x y : Option OperationStatus) (a : OperationStatus)
    → IsSame x y
    → x ≡ some a
    → (b : OperationStatus) × (y ≡ some b)
      × (b.operation_id ≡ a.operation_id)
      × (b.kind ≡ a.kind)
      × (b.generation ≡ a.generation)
IsSame-some none y a h e = cc
IsSame-some (some c) none a h e = absurd h
IsSame-some (some c) (some b) a h e = (b, refl, ground arith, ground arith, ground arith)

IsSame-none : (x y : Option OperationStatus) → IsSame x y → x ≡ none → y ≡ none
IsSame-none x none h e = refl
IsSame-none none (some b) h e = absurd h
IsSame-none (some a) (some b) h e = cc

keep-Exclusive :
    (o o' : Orchestrator) (rs : List Goroutine) → Keeps o o' → Exclusive o rs → Exclusive o' rs
keep-Exclusive o o' [] h e = IsSame-none o.active o'.active h.0 e
keep-Exclusive o o' (r ∷ []) h e =
    let (b, f, i, k, g) = IsSame-some o.active o'.active e.0.in_flight h.0 e.0.flies in
    let runs : Runs o' r.op = record {
      in_flight = b;
      flies = f;
      same_id = e.0.same_id ∙ sym i;
      same_kind = e.0.same_kind ∙ sym k;
      same_generation = e.0.same_generation ∙ sym g;
      applied_generation = e.0.applied_generation ∙ sym h.1;
    } in
    (runs, e.1)
keep-Exclusive o o' (r ∷ q ∷ rs) h e = e

-- The goroutine at any place of the list is the only one.
pub only :
    (o : Orchestrator) (before after : List Goroutine) (r : Goroutine)
    → Exclusive o (before ++ r ∷ after)
    → Runs o r.op × Ends r.op r.ending
only o [] [] r h = h
only o [] (q ∷ after) r h = absurd h
only o (b ∷ []) after r h = absurd h
only o (b ∷ c ∷ before) after r h = absurd h

replace :
    (o : Orchestrator) (before after : List Goroutine) (r q : Goroutine)
    → Exclusive o (before ++ r ∷ after)
    → Runs o q.op × Ends q.op q.ending
    → Exclusive o (before ++ q ∷ after)
replace o [] [] r q h k = k
replace o [] (p ∷ after) r q h k = absurd h
replace o (b ∷ []) after r q h k = absurd h
replace o (b ∷ c ∷ before) after r q h k = absurd h

remove :
    (o o' : Orchestrator) (before after : List Goroutine) (r : Goroutine)
    → Exclusive o (before ++ r ∷ after)
    → o'.active ≡ none
    → Exclusive o' (before ++ after)
remove o o' [] [] r h k = k
remove o o' [] (p ∷ after) r h k = absurd h
remove o o' (b ∷ []) after r h k = absurd h
remove o o' (b ∷ c ∷ before) after r h k = absurd h

spawn-quiet : (reply : Reply) (rs : List Goroutine) → IsQuiet reply → spawn reply rs ≡ rs
spawn-quiet (idle status) rs h = refl
spawn-quiet (refused status err) rs h = refl
spawn-quiet (accepted status op task) rs h = absurd h

no-routine : (o : Orchestrator) (rs : List Goroutine) → Exclusive o rs → o.active ≡ none → rs ≡ []
no-routine o [] h e = refl
no-routine o (r ∷ []) h e = let f = h.0.flies in cc
no-routine o (r ∷ q ∷ rs) h e = absurd h

call-Inv : (env : Env) (c : Command) (s : System) → Inv s → Inv (call env c s)
call-Inv env c s v = go (command-Outcome env c s.state)
  where
    go : Outcome s.state (command env c s.state) → Inv (call env c s)
    go (kept quiet same applied) = record {
      exclusive = rw (spawn-quiet _ s.routines quiet) (
          keep-Exclusive s.state _ s.routines
            (IsSame-refl _ _ same, ap (λ (a : AppliedState). a.generation) applied) v.exclusive);
      bounded = rw applied v.bounded;
    }
    go (submitted {op = op} reply free flies applied next_gen) = record {
      exclusive =
          rw (reply, no-routine s.state s.routines v.exclusive free)
            (
              record {
                in_flight = op;
                flies = flies;
                same_id = refl;
                same_kind = refl;
                same_generation = refl;
                applied_generation = sym applied;
              },
              tt,
            );
      bounded = rw (applied, next_gen) (next_generation_bounds _).1;
    }

-- Every step keeps the invariant.
pub Step-Inv : {s t : System} → Step s t → Inv s → Inv t
Step-Inv {s} (calls env c e) v = subst Inv (sym e) (call-Inv env c s v)
Step-Inv {s} (updates env u e) v = subst Inv (sym e) (record {
  exclusive =
      keep-Exclusive s.state (update env u s.state) s.routines (update-Keeps env u s.state)
        v.exclusive;
  bounded = rw (update-Keeps env u s.state).1 v.bounded;
})
Step-Inv {s} (returns env before after r e running t) v = subst Inv (sym t) (record {
  exclusive =
      let h = rw e at v.exclusive in
      replace s.state before after r _ h
        ((only s.state before after r h).0, run_task-HasGeneration env s.state r.task r.op);
  bounded = v.bounded;
})
Step-Inv {s} (panics message before after r e running t) v = subst Inv (sym t) (record {
  exclusive =
      let h = rw e at v.exclusive in
      replace s.state before after r _ h ((only s.state before after r h).0, tt);
  bounded = v.bounded;
})
Step-Inv {s} (finishes env before after r ending e done t) v =
    let h = rw e at v.exclusive in
    let (runs, ends) = only s.state before after r h in
    let ends' : EndsWith r.op ending = rw done at ends in
    subst Inv (sym t) (record {
      exclusive =
          remove s.state _ before after r h
            (finish-clears env r.op runs.in_flight ending s.state runs.flies runs.same_id);
      bounded =
          rw (finish-generation env r.op ending s.state runs.applied_generation ends') v.bounded;
    })

-- No operation is in flight in the state that `NewOrchestrator` makes.
initial-Inv :
    (desired : DesiredState) (backends : List BackendKind) (compatibility : CompatibilityStatus)
    → Inv (initial desired backends compatibility)
unfolding new_orchestrator
initial-Inv desired backends compatibility = record { exclusive = refl; bounded = omega arith }

-- In every state that a new orchestrator can reach, by any interleaving of calls, of the other
-- methods' locked sections and of the goroutines, either no operation is in flight and there is no
-- goroutine, or one is, with one goroutine; they agree in id, kind and generation, the generation
-- is the applied one, and a closure that has returned completes with it. The applied generation
-- is below 2 ^ 63.
pub Reach-Inv :
    (desired : DesiredState) (backends : List BackendKind) (compatibility : CompatibilityStatus)
    {s : System}
    → Reach (initial desired backends compatibility) s
    → Inv s
Reach-Inv desired backends compatibility at_start = initial-Inv desired backends compatibility
Reach-Inv desired backends compatibility (moved path step) =
    Step-Inv step (Reach-Inv desired backends compatibility path)
