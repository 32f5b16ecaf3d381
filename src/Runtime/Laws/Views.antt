-- ===== src/Runtime/Laws/Views.antt =====
-- What the status shows, and how progress reaches it (orchestrator.go, status_model.go).
use rknno_vpn.Prelude.{
  ℕ, ◌+◌, ◌*◌, ◌<◌, ◌≤◌, ◌^◌, String, true, false, ◌≡◌, ◌≢◌, ◌⊎◌, refl, Option, none, some, arith,
  ap, List, [], ◌∷◌, ◌++◌, All, is_empty, is_some, eq_iff, if◌then◌else◌,
}
use rknno_vpn.Runtime.Types.{
  HealthSnapshot, OperationStatus, OperationResult, object, struct, OperationStep,
}
use rknno_vpn.Runtime.Report.{
  find_stage, last_stage, no_step, operation_step_from_report, operation_step_from_map,
  operation_step_from_struct,
}
use rknno_vpn.Runtime.State.{
  Env, Orchestrator, log_locked, notify, or_text, snapshot, clone_active, canonical_status,
  log_stuck, duration_millis_ceil, millisecond,
}
use rknno_vpn.Runtime.Phase.{phase_from_health}
use rknno_vpn.Runtime.Commands.{is_stopped}
use rknno_vpn.Runtime.Updates.{set_active_operation_step, set_step, refresh_health_end}

clone_active_keeps :
    (o : Orchestrator) (now : ℕ) (a : OperationStatus)
    → let b = clone_active o now a in
      (b.operation_id ≡ a.operation_id)
      × (b.kind ≡ a.kind)
      × (b.generation ≡ a.generation)
      × (b.phase ≡ a.phase)
unfolding clone_active
clone_active_keeps o now a = ground arith

-- While an operation is in flight the status shows that operation, its phase and, for a generation
-- in the range that the orchestrator gives out, its generation; the applied state does not show.
pub status_in_flight :
    (env : Env) (o : Orchestrator) (a : OperationStatus)
    → o.active ≡ some a
    → 0 < a.generation
    → a.generation < 2 ^ 63
    → let s = snapshot env o in
      (s.canonical.phase ≡ a.phase)
      × (s.canonical.generation ≡ a.generation)
      × (s.active_operation ≡ some (clone_active o env.now a))
unfolding snapshot canonical_status
status_in_flight env o a e pos bound = ground (arith, clone_active_keeps o env.now a)

is_empty_lem : (t : String) → is_empty t ≡ true → t ≡ ""
is_empty_lem String.[] h = refl
is_empty_lem (String.◌∷◌ c t) h = cc

-- The code and the message that a last operation leaves: none, unless it failed.
abbrev pub failure_of : Option OperationResult → (OperationResult → String) → String
failure_of none field = ""
failure_of (some r) field = if r.succeeded then "" else field r

-- With no operation in flight the status shows the applied phase and generation, and its code and
-- error are those of the health, or, where that has none, those of a last operation that failed.
pub status_at_rest :
    (env : Env) (o : Orchestrator)
    → o.active ≡ none
    → let s = snapshot env o in
      (s.canonical.phase ≡ o.applied.phase)
      × (s.canonical.generation ≡ o.applied.generation)
      × (s.active_operation ≡ none)
      × (s.canonical.last_code ≡ or_text o.health.last_code (failure_of o.last (λ r. r.error_code)))
      × (s.canonical.last_error
          ≡ or_text o.health.last_error (failure_of o.last (λ r. r.error_message)))
unfolding snapshot canonical_status
status_at_rest env o e =
    ground (arith, is_empty_lem o.health.last_code, is_empty_lem o.health.last_error)

-- A step is accepted exactly for the generation in flight. It then replaces the four step fields of
-- that operation, and the applied state, the health and the last result stay.
pub set_step_cases :
    (env : Env) (generation : ℕ) (name step_status code detail : String) (o : Orchestrator)
    (a : OperationStatus)
    → o.active ≡ some a
    → let r = set_active_operation_step env generation name step_status code detail o in
      ((a.generation ≢ generation) × (r ≡ (o, false)))
      ⊎ ((a.generation ≡ generation)
          × (r.1 ≡ true)
          × (r.0.active
              ≡ some (record a {
                step = name;
                step_status = step_status;
                step_code = code;
                step_detail = detail;
              }))
          × (r.0.applied ≡ o.applied)
          × (r.0.health ≡ o.health)
          × (r.0.last ≡ o.last))
unfolding set_active_operation_step set_step log_locked notify
set_step_cases env generation name step_status code detail o a e = ground arith

-- A health refresh always replaces the health and keeps the operation in flight. It moves the
-- applied phase, to the phase of the new health, exactly while nothing is in flight and the runtime
-- is not stopped, and leaves the rest of the applied state alone.
pub refresh_moves_phase :
    (env : Env) (health : HealthSnapshot) (o : Orchestrator)
    → let t = refresh_health_end env health o in
      (t.health ≡ health)
      × (t.active ≡ o.active)
      × ((((is_some o.active ≡ true) ⊎ (is_stopped o.applied.phase ≡ true))
            × (t.applied ≡ o.applied))
          ⊎ ((o.active ≡ none)
              × (is_stopped o.applied.phase ≡ false)
              × (t.applied
                  ≡ record (o.applied) { phase = phase_from_health health o.applied.phase })))
unfolding refresh_health_end notify
refresh_moves_phase env health o = (ground arith, ground arith, ground arith)

-- An operation is reported as stuck once: after the mark is set no read of the status logs or
-- changes anything, and a read that logs sets the mark.
pub stuck_logged_once :
    (env env' : Env) (o : Orchestrator)
    → let t = log_stuck env o in (t ≡ o) ⊎ ((t.active_stuck_logged ≡ true) × (log_stuck env' t ≡ t))
unfolding log_stuck log_locked
stuck_logged_once env env' o = ground arith

-- The watchdog's milliseconds are the duration rounded up, and one for the zero duration.
pub duration_millis_ceil_lem :
    (d : ℕ)
    → ((d ≡ 0) × (duration_millis_ceil d ≡ 1))
      ⊎ ((d ≤ duration_millis_ceil d * millisecond)
          × (duration_millis_ceil d * millisecond < d + millisecond))
unfolding duration_millis_ceil
duration_millis_ceil_lem d = ground arith

find_stage-name :
    (failed : String) (stages : List OperationStep) → (find_stage failed stages).name ≡ failed
unfolding find_stage
find_stage-name failed [] = refl
find_stage-name failed (s ∷ stages) =
    ground (arith, eq_iff s.name failed, find_stage-name failed stages)

last_stage_empty :
    (stages : List OperationStep)
    → All (λ (t : OperationStep). is_empty t.name ≡ true) stages
    → last_stage stages ≡ no_step
unfolding last_stage
last_stage_empty [] h = refl
last_stage_empty (s ∷ stages) h = ground (arith, last_stage_empty stages h.1)

last_stage_here :
    (s : OperationStep) (later : List OperationStep)
    → is_empty s.name ≡ false
    → last_stage later ≡ no_step
    → last_stage (s ∷ later) ≡ s
unfolding last_stage
last_stage_here s later h e = ground (arith, ap (λ (t : OperationStep). is_empty t.name) e)

last_stage_lem :
    (earlier later : List OperationStep) (s : OperationStep)
    → is_empty s.name ≡ false
    → All (λ (t : OperationStep). is_empty t.name ≡ true) later
    → last_stage (earlier ++ s ∷ later) ≡ s
unfolding last_stage
last_stage_lem [] later s h e = last_stage_here s later h (last_stage_empty later e)
last_stage_lem (x ∷ earlier) later s h e = ground (arith, last_stage_lem earlier later s h e)

-- A report that names a failed stage shows a step of that name, from an object and from a struct
-- with stages alike.
pub report_failed_step :
    (failed : String) (stages : List OperationStep)
    → is_empty failed ≡ false
    → ((operation_step_from_report (some (object failed stages))).name ≡ failed)
      × ((operation_step_from_report (some (struct failed (some stages)))).name ≡ failed)
unfolding operation_step_from_report operation_step_from_map operation_step_from_struct
report_failed_step failed stages h = ground (arith, find_stage-name failed stages)

-- A report that names no failed stage shows the last of its stages that has a name.
pub report_last_step :
    (earlier later : List OperationStep) (s : OperationStep)
    → is_empty s.name ≡ false
    → All (λ (t : OperationStep). is_empty t.name ≡ true) later
    → (operation_step_from_report (some (object "" (earlier ++ s ∷ later))) ≡ s)
      × (operation_step_from_report (some (struct "" (some (earlier ++ s ∷ later)))) ≡ s)
unfolding operation_step_from_report operation_step_from_map operation_step_from_struct
report_last_step earlier later s named empty =
    ground (arith, last_stage_lem earlier later s named empty)
