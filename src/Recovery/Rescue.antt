-- ===== src/Recovery/Rescue.antt =====
-- The rescue manager (rescue.go). The gate, the calls of the core and the scripts are their answers in
-- one attempt; the actions are recorded in their order.
use rknno_vpn.Prelude.{
  ℕ, String, ◌+◌, ◌-◌, ◌*◌, Bool, not, ◌&&◌, List, [], ◌∷◌, ◌++◌, Option, none, some, ltb, leb,
  ◌==◌, concat, if◌then◌else◌,
}
use rknno_vpn.Runtime.Types.{Time, is_zero}
use rknno_vpn.Recovery.Health.{CoreState, stopped, running, degraded, rescue}

pub data Strategy : Type 0 where
  restart_core reapply_rules full_restart : Strategy

pub record RescueManager : Type 0 where
  pub max_attempts : ℕ
  pub attempts : ℕ
  pub last_attempt : Time
  pub cooldown : ℕ

-- What the gate answers at each place where an attempt asks it; a nil gate answers `true`.
pub record Gates : Type 0 where
  pub at_start : Bool
  pub before_strategy : Bool
  pub in_strategy : Bool
  pub between : Bool
  pub after_failure : Bool
  pub at_end : Bool

-- The errors of the core's calls and of the scripts, and the instants that an attempt reads. The
-- errors of the two `stop` scripts and of the reset are only logged.
pub record Answers : Type 0 where
  pub now : Time
  pub picked_at : Time
  pub gates : Gates
  pub hot_swap : Option String
  pub iptables_start : Option String
  pub dns_start : Option String
  pub start : Option String

pub data RescueError : Type 0 where
  cancelled : RescueError
  cooling : ℕ → RescueError
  exhausted : ℕ → RescueError
  failed : Strategy → String → RescueError

pub data RescueAction : Type 0 where
  sets : CoreState → RescueAction
  hot_swaps stops_iptables starts_iptables stops_dns starts_dns resets starts : RescueAction
  runs_cleanup removes_lock : RescueAction

-- `NewRescueManager`, with the number of attempts that is asked for, 0 for one below 1.
unfoldable pub new_rescue_manager : ℕ → ℕ → RescueManager
new_rescue_manager max_attempts cooldown = record {
  max_attempts = if ltb max_attempts 1 then 3 else max_attempts;
  attempts = 0;
  last_attempt = 0;
  cooldown = cooldown;
}

unfoldable pub pick_strategy : ℕ → Strategy
pick_strategy attempts =
    if attempts == 0 then restart_core else if attempts == 1 then reapply_rules else full_restart

unfoldable pub run_restart_core : Answers → List RescueAction × Option String
run_restart_core a =
    if a.gates.in_strategy then (hot_swaps ∷ [], a.hot_swap) else ([], some "cancelled")

unfoldable pub run_reapply_rules : Answers → List RescueAction × Option String
run_reapply_rules a =
    if a.gates.in_strategy
    then elim a.iptables_start [
      | some err ↦ (stops_iptables ∷ starts_iptables ∷ [], some (concat "iptables start: " err))
      | none ↦
          if a.gates.between
          then (
            stops_iptables ∷ starts_iptables ∷ stops_dns ∷ starts_dns ∷ [],
            elim a.dns_start [ none ↦ none | some err ↦ some (concat "dns start: " err) ],
          )
          else (stops_iptables ∷ starts_iptables ∷ [], some "cancelled")
    ]
    else ([], some "cancelled")

unfoldable pub run_full_restart : Answers → List RescueAction × Option String
run_full_restart a =
    if a.gates.in_strategy
    then (if a.gates.between
        then (resets ∷ starts ∷ [], a.start)
        else (resets ∷ [], some "cancelled"))
    else ([], some "cancelled")

unfoldable pub run_strategy : Strategy → Answers → List RescueAction × Option String
unfolding run_restart_core run_reapply_rules run_full_restart
run_strategy restart_core a = run_restart_core a
run_strategy reapply_rules a = run_reapply_rules a
run_strategy full_restart a = run_full_restart a

-- `Attempt` from the choice of the strategy on.
unfoldable pub run_picked : Strategy → Answers → List RescueAction × Option RescueError
run_picked strategy a =
    if a.gates.before_strategy
    then (let (actions, err) = run_strategy strategy a in
        elim err [
          | some e ↦ (
            sets rescue ∷ actions ++ (if a.gates.after_failure then sets degraded ∷ [] else []),
            some (failed strategy e),
          )
          | none ↦
              if a.gates.at_end
              then (sets rescue ∷ actions ++ sets running ∷ [], none)
              else (sets rescue ∷ actions, some cancelled)
        ])
    else (sets rescue ∷ [], some cancelled)

unfoldable pub attempt :
    Answers → RescueManager → RescueManager × List RescueAction × Option RescueError
unfolding pick_strategy
attempt a r =
    if not a.gates.at_start
    then (r, [], some cancelled)
    else if not (is_zero r.last_attempt) && ltb (a.now - r.last_attempt) r.cooldown
    then (r, [], some (cooling (r.cooldown - (a.now - r.last_attempt))))
    else if leb r.max_attempts r.attempts
    then (r, [], some (exhausted r.max_attempts))
    else (let (actions, err) = run_picked (pick_strategy r.attempts) a in
        (record r { attempts = r.attempts + 1; last_attempt = a.picked_at }, actions, err))

-- `Rollback`, with the error of the reset of the core; that of the script is only logged.
unfoldable pub rollback : Option String → List RescueAction × Option String
rollback (some err) = (resets ∷ [], some (concat "rescue: rollback stop: " err))
rollback none = (resets ∷ runs_cleanup ∷ removes_lock ∷ sets stopped ∷ [], none)

unfoldable pub reset : RescueManager → RescueManager
reset r = record r { attempts = 0; last_attempt = 0 }

-- `SetConfig`: a number of attempts, and of seconds, that is not above 0 is 0 here.
unfoldable pub set_config : ℕ → ℕ → RescueManager → RescueManager
set_config max_attempts cooldown_sec r = record r {
  max_attempts = if leb 1 max_attempts then max_attempts else r.max_attempts;
  cooldown = if ltb 0 cooldown_sec then cooldown_sec * 1000000000 else r.cooldown;
}
