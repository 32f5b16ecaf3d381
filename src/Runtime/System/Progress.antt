-- ===== src/Runtime/System/Progress.antt =====
-- An operation that was accepted can end, and generations grow (orchestrator.go).
use rknno_vpn.Prelude.{◌+◌, ◌≤◌, ◌<◌, ◌^◌, ◌≡◌, refl, Option, none, some, [], ◌∷◌, arith}
use rknno_vpn.Runtime.Types.{OperationStatus, OperationResult}
use rknno_vpn.Runtime.State.{Env, Orchestrator}
use rknno_vpn.Runtime.Engine.{Ending, returned, finish, operation_result, completion_of}
use rknno_vpn.Runtime.Commands.{Reply}
use rknno_vpn.Runtime.Tasks.{run_task}
use rknno_vpn.Runtime.Laws.Sections.{Outcome, kept, submitted}
use rknno_vpn.Runtime.Laws.Updates.{update-Keeps}
use rknno_vpn.Runtime.Laws.Finish.{
  EndsWith, finish-clears, finish-generation, finish-last, next_generation-suc,
}
use rknno_vpn.Runtime.System.{
  Goroutine, System, ended, Step, calls, updates, returns, panics, finishes, Reach, at_start, moved,
}
use rknno_vpn.Runtime.System.Invariant.{Inv, Runs, Exclusive, only, command-Outcome}

-- The state shows that the operation is over, and how it ended.
pub record IsOver (op : OperationStatus) (t : System) : Type 0 where
  pub no_routines : t.routines ≡ []
  pub not_in_flight : t.state.active ≡ none
  pub result : OperationResult
  pub is_last : t.state.last ≡ some result
  pub of_op : (result.operation_id ≡ op.operation_id) × (result.generation ≡ op.generation)

-- The last step: the deferred function of a goroutine whose `run` has ended.
finish-IsOver :
    (env : Env) (s : System) (r : Goroutine) (ending : Ending)
    → Runs s.state r.op
    → IsOver r.op (record { state = finish env r.op ending s.state; routines = [] })
unfolding operation_result
finish-IsOver env s r ending runs = record {
  no_routines = refl;
  not_in_flight = finish-clears env r.op runs.in_flight ending s.state runs.flies runs.same_id;
  result = operation_result r.op (completion_of env r.op ending s.state) env.now;
  is_last = finish-last env r.op ending s.state;
  of_op = (refl, refl);
}

-- A step that the goroutine of an operation takes: not a call, not another section.
abbrev pub IsOwn : {s t : System} → OperationStatus → Step s t → Type 0
IsOwn op (calls env c e) = ⊥
IsOwn op (updates env u e) = ⊥
IsOwn op (returns env before after r e running t) = r.op ≡ op
IsOwn op (panics message before after r e running t) = r.op ≡ op
IsOwn op (finishes env before after r ending e done t) = r.op ≡ op

abbrev pub IsOwnPath : {s t : System} → OperationStatus → Reach s t → Type 0
IsOwnPath op at_start = Unit {0}
IsOwnPath op (moved path step) = IsOwnPath op path × IsOwn op step

ended_ends :
    (env : Env) (s : System) (r : Goroutine) (e : Option Ending)
    → s.routines ≡ r ∷ []
    → r.ending ≡ e
    → Runs s.state r.op
    → (t : System) × ((path : Reach s t) × IsOwnPath r.op path) × IsOver r.op t
ended_ends env s r (some ending) alone e runs =
    let t : System = record { state = finish env r.op ending s.state; routines = [] } in
    (
      t,
      (moved at_start (finishes env [] [] r ending alone e refl), (tt, refl)),
      finish-IsOver env s r ending runs,
    )
ended_ends env s r none alone e runs =
    let ending = returned (run_task env s.state r.task r.op) in
    let u : System = record s { routines = ended r ending ∷ [] } in
    let t : System = record { state = finish env r.op ending s.state; routines = [] } in
    (
      t,
      (
        moved (moved at_start (returns env [] [] r alone e refl))
            (finishes env [] [] (ended r ending) ending refl refl refl),
        ((tt, refl), refl),
      ),
      finish-IsOver env u (ended r ending) ending runs,
    )

-- From every state that the invariant allows, if one goroutine is left, there are steps of that
-- goroutine alone, the return of its `run` if that is still to come and its deferred function, behind
-- which nothing is in flight and the last result is that of its operation. That `run` returns is a
-- step of the system.
pub in_flight_can_end :
    (env : Env) (s : System) (r : Goroutine)
    → Inv s
    → s.routines ≡ r ∷ []
    → (t : System) × ((path : Reach s t) × IsOwnPath r.op path) × IsOver r.op t
in_flight_can_end env s r v alone =
    let h : Exclusive s.state (r ∷ []) = rw alone at v.exclusive in
    ended_ends env s r r.ending alone refl h.0

Outcome-grows :
    (o : Orchestrator) (r : Orchestrator × Reply)
    → Outcome o r
    → o.applied.generation + 1 < 2 ^ 63
    → o.applied.generation ≤ r.0.applied.generation
Outcome-grows o r (kept quiet same applied) h = rw applied (omega arith)
Outcome-grows o r (submitted reply free flies applied next_gen) h =
    rw (applied, next_gen, next_generation-suc o.applied.generation h) (omega arith)

-- No step takes the applied generation back, short of the wrap of a signed 64-bit number.
pub Step-generation :
    {s t : System}
    → Step s t
    → Inv s
    → s.state.applied.generation + 1 < 2 ^ 63
    → s.state.applied.generation ≤ t.state.applied.generation
Step-generation {s} (calls env c e) v h =
    rw e (Outcome-grows s.state _ (command-Outcome env c s.state) h)
Step-generation {s} (updates env u e) v h = rw (e, (update-Keeps env u s.state).1) (omega arith)
Step-generation {s} (returns env before after r e running t) v h = rw t (omega arith)
Step-generation {s} (panics message before after r e running t) v h = rw t (omega arith)
Step-generation {s} (finishes env before after r ending e done t) v h =
    let h' = rw e at v.exclusive in
    let (runs, ends) = only s.state before after r h' in
    let ends' : EndsWith r.op ending = rw done at ends in
    rw (t, finish-generation env r.op ending s.state runs.applied_generation ends') (omega arith)
