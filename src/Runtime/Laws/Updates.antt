-- ===== src/Runtime/Laws/Updates.antt =====
-- What the sections that submit nothing, and the end of an operation, do to the operation in flight
-- and to the applied generation (orchestrator.go).
use rknno_vpn.Prelude.{ℕ, String, ◌≡◌, refl, Option, none, some, arith, ap}
use rknno_vpn.Runtime.Types.{OperationStatus, AppliedState}
use rknno_vpn.Runtime.State.{Env, Orchestrator, notify, log_locked, log_stuck}
use rknno_vpn.Runtime.Updates.{
  set_operation_watchdog, set_operation_logger, set_status_observer, set_compatibility, status,
  set_step, set_active_operation_step, refresh_progress_begin, refresh_progress_end,
  refresh_health_begin, refresh_health_end, apply_desired_state,
}
use rknno_vpn.Runtime.System.{Update, update, step_of, read_status}
use rknno_vpn.Runtime.Laws.Sections.{log_stuck_keeps}

-- The same operation: its step may differ.
abbrev pub IsSame : Option OperationStatus → Option OperationStatus → Type 0
IsSame none none = Unit {0}
IsSame none (some b) = ⊥
IsSame (some a) none = ⊥
IsSame (some a) (some b) =
    (b.operation_id ≡ a.operation_id) × (b.kind ≡ a.kind) × (b.generation ≡ a.generation)

pub IsSame-refl : (a b : Option OperationStatus) → b ≡ a → IsSame a b
IsSame-refl none none e = tt
IsSame-refl none (some b) e = cc
IsSame-refl (some a) none e = cc
IsSame-refl (some a) (some b) e = ground arith

abbrev pub Keeps : Orchestrator → Orchestrator → Type 0
Keeps o o' = IsSame o.active o'.active × (o'.applied.generation ≡ o.applied.generation)

set_step-Keeps :
    (env : Env) (name step_status code detail : String) (a : OperationStatus) (o : Orchestrator)
    → o.active ≡ some a
    → Keeps o (set_step env name step_status code detail a o)
unfolding set_step log_locked notify
set_step-Keeps env name step_status code detail a o e = ground arith

unchanged : (o o' : Orchestrator) → (o'.active ≡ o.active) × (o'.applied ≡ o.applied) → Keeps o o'
unchanged o o' h = (IsSame-refl o.active o'.active h.0, ap (λ (a : AppliedState). a.generation) h.1)

step_of-Keeps :
    (env : Env) (generation : ℕ) (name step_status code detail : String)
    (a : Option OperationStatus) (o : Orchestrator)
    → o.active ≡ a
    → Keeps o (set_active_operation_step env generation name step_status code detail o).0
unfolding set_active_operation_step
step_of-Keeps env generation name step_status code detail none o e = ground arith
step_of-Keeps env generation name step_status code detail (some a) o e =
    ground
      (arith, set_step-Keeps env name step_status code detail a o e, unchanged o o (refl, refl))

pub update-Keeps : (env : Env) (u : Update) (o : Orchestrator) → Keeps o (update env u o)
unfolding update set_operation_watchdog set_operation_logger set_status_observer set_compatibility
    apply_desired_state notify refresh_progress_begin refresh_progress_end refresh_health_begin
    refresh_health_end status log_stuck
update-Keeps env (step_of generation name code detail more) o =
    step_of-Keeps env generation name code detail more o.active o refl
update-Keeps env read_status o = unchanged o (log_stuck env o) (log_stuck_keeps env o)
update-Keeps env _ o = ground arith
