-- ===== src/Recovery/Attempts.antt =====
-- The attempts of a rescue: how they escalate and what one of them does (rescue.go).
use rknno_vpn.Prelude.{
  ℕ, ◌+◌, ◌<◌, ◌≤◌, true, false, List, [], ◌∷◌, Option, none, some, is_some, leb, ltb, length,
  if◌then◌else◌, ◌≡◌, refl, arith, inl, inr, suc, ◌∙◌, ap, ◌⊎◌, ◌↔◌, zero,
}
use rknno_vpn.Recovery.Health.{CoreState, running, degraded}
use rknno_vpn.Recovery.Rescue.{
  Strategy, restart_core, reapply_rules, full_restart, RescueManager, Answers, RescueAction, sets,
  hot_swaps, stops_iptables, starts_iptables, stops_dns, starts_dns, resets, starts, runs_cleanup,
  removes_lock, pick_strategy, run_restart_core, run_reapply_rules, run_full_restart, run_strategy,
  run_picked, attempt,
}

-- The last state that the actions set.
abbrev pub last_set : List RescueAction → Option CoreState
last_set [] = none
last_set (sets s ∷ actions) =
    let rest = last_set actions in elim rest [ none ↦ some s | some t ↦ some t ]
last_set (hot_swaps ∷ actions) = last_set actions
last_set (stops_iptables ∷ actions) = last_set actions
last_set (starts_iptables ∷ actions) = last_set actions
last_set (stops_dns ∷ actions) = last_set actions
last_set (starts_dns ∷ actions) = last_set actions
last_set (resets ∷ actions) = last_set actions
last_set (starts ∷ actions) = last_set actions
last_set (runs_cleanup ∷ actions) = last_set actions
last_set (removes_lock ∷ actions) = last_set actions

-- An attempt either refuses, with the manager as it was and nothing done, or counts itself, notes its
-- instant and runs the strategy of its number: this one exactly if the gate lets it, fewer than the
-- greatest number of attempts were made, and none was made before or the cooldown is over.
pub attempt_cases :
    (a : Answers) (r : RescueManager)
    → let next = attempt a r in
      ((next.0 ≡ r)
        × (next.1 ≡ [])
        × (is_some next.2 ≡ true)
        × ((a.gates.at_start ≡ false)
            ⊎ ((a.now < r.last_attempt + r.cooldown) ⊎ (r.max_attempts ≤ r.attempts))))
      ⊎ ((next.0 ≡ record r { attempts = r.attempts + 1; last_attempt = a.picked_at })
          × (next.1 ≡ (run_picked (pick_strategy r.attempts) a).0)
          × (next.2 ≡ (run_picked (pick_strategy r.attempts) a).1)
          × (a.gates.at_start ≡ true)
          × (r.attempts < r.max_attempts)
          × ((r.last_attempt ≡ 0) ⊎ (r.last_attempt + r.cooldown ≤ a.now) ⊎ (r.cooldown ≡ 0)))
unfolding attempt
attempt_cases a r = ground arith

-- Whatever the strategy, the last state that an attempt itself gives the core is running exactly if the
-- attempt gives no error, and degraded exactly if its strategy failed with the gate still open.
pub run_picked-last :
    (strategy : Strategy) (a : Answers)
    → ((last_set (run_picked strategy a).0 ≡ some running) ↔ ((run_picked strategy a).1 ≡ none))
      × ((last_set (run_picked strategy a).0 ≡ some degraded) ↔ (
          (a.gates.before_strategy ≡ true)
          × (is_some (run_strategy strategy a).1 ≡ true)
          × (a.gates.after_failure ≡ true)))
unfolding run_picked run_strategy run_restart_core run_reapply_rules run_full_restart
run_picked-last restart_core a = ground arith
run_picked-last reapply_rules a = ground arith
run_picked-last full_restart a = ground arith

-- The strategies of attempts one after another, and the manager after them.
abbrev pub tries : List Answers → RescueManager → List Strategy × RescueManager
tries [] r = ([], r)
tries (a ∷ answers) r =
    let next = (attempt a r).0 in
    let rest = tries answers next in
    ((if ltb r.attempts next.attempts then pick_strategy r.attempts ∷ rest.0 else rest.0), rest.1)

abbrev pub severity : ℕ → Strategy
severity k = if leb 2 k then full_restart else if leb 1 k then reapply_rules else restart_core

-- The strategies of the attempts with the numbers from `k` on.
abbrev pub escalation : ℕ → ℕ → List Strategy
escalation k zero = []
escalation k (suc n) = severity k ∷ escalation (k + 1) n

pick_strategy-severity : (k : ℕ) → pick_strategy k ≡ severity k
unfolding pick_strategy
pick_strategy-severity k = ground arith

attempt-bounded :
    (a : Answers) (r : RescueManager)
    → ((attempt a r).0 ≡ r)
      ⊎ (((attempt a r).0.attempts ≡ r.attempts + 1)
          × ((attempt a r).0.max_attempts ≡ r.max_attempts)
          × (r.attempts < r.max_attempts))
unfolding attempt
attempt-bounded a r = ground arith

-- The attempts of a rescue from a manager within its bound run the restart of the core, then the rules,
-- then full restarts, each as the number of attempts before it says, and never more than the bound.
pub tries_lem :
    (answers : List Answers) (r : RescueManager)
    → r.attempts ≤ r.max_attempts
    → let after = tries answers r in
      (after.0 ≡ escalation r.attempts (length after.0))
      × (after.1.attempts ≡ r.attempts + length after.0)
      × (after.1.attempts ≤ r.max_attempts)
tries_lem [] r b = (refl, omega arith, b)
tries_lem (a ∷ answers) r b = elim (attempt-bounded a r) [
  | inl e ↦
      (let same : ltb r.attempts r.attempts ≡ false = ground arith in
        rw (e, same) (tries_lem answers r b))
  | inr (e, m, l) ↦
      let next = (attempt a r).0 in
      let ih = tries_lem answers next (ground (arith, e, m, l)) in
      let grows : ltb r.attempts next.attempts ≡ true = ground (arith, e) in
      let strategies = (tries answers next).0 in
      let harder = ih.0 ∙ ap (λ (k : ℕ). escalation k (length strategies)) e in
      rw grows (
        ap (λ (s : Strategy). s ∷ strategies) (pick_strategy-severity r.attempts)
            ∙ ap (λ (l : List Strategy). severity r.attempts ∷ l) harder,
        (let count = ih.1 in omega (arith, count, e)),
        (let bound = ih.2 in omega (arith, bound, m)),
      )
]
