-- ===== src/Core/Stages.antt =====
-- The report of a sequence of stages (`AddStage` of manager.go).
use rknno_vpn.Prelude.{
  arith, ℕ, ◌+◌, ◌-◌, ◌/◌, ◌≤◌, ◌≡◌, refl, ap, ◌∙◌, inl, inr, String, Bool, false, List, [], ◌∷◌,
  ◌++◌, Option, none, some, if◌then◌else◌, str_eq, is_empty, Bool-cases,
}
use rknno_vpn.Core.Report.{
  RuntimeStage, RuntimeStageReport, new_runtime_stage_report, elapsed_ms, last_time, add_stage,
}

-- The arguments of a call of `AddStage`, and the time that it reads.
pub record StageCall : Type 0 where
  pub now : ℕ
  pub name : String
  pub status : String
  pub code : String
  pub detail : String
  pub rollback_applied : Bool

abbrev pub add_call : StageCall → RuntimeStageReport → RuntimeStageReport
add_call c r = add_stage c.now c.name c.status c.code c.detail c.rollback_applied r

pub add_calls : List StageCall → RuntimeStageReport → RuntimeStageReport
add_calls [] r = r
add_calls (c ∷ calls) r = add_calls calls (add_call c r)

pub total_ms : List RuntimeStage → ℕ
total_ms [] = 0
total_ms (stage ∷ stages) = stage.duration_ms + total_ms stages

-- The clock does not go back.
abbrev pub InOrder : ℕ → List StageCall → Type 0
InOrder t [] = Unit {0}
InOrder t (c ∷ calls) = (t ≤ c.now) × InOrder c.now calls

total_ms-append :
    (stages : List RuntimeStage) (stage : RuntimeStage)
    → total_ms (stages ++ stage ∷ []) ≡ total_ms stages + stage.duration_ms
unfolding total_ms
total_ms-append [] stage = omega arith
total_ms-append (s ∷ stages) stage = omega (arith, total_ms-append stages stage)

last_time-append :
    (t : ℕ) (stages : List RuntimeStage) (stage : RuntimeStage)
    → last_time t (stages ++ stage ∷ []) ≡ stage.at_time
unfolding last_time
last_time-append t [] stage = refl
last_time-append t (s ∷ stages) stage = last_time-append s.at_time stages stage

-- The stages take no longer than the time from the start to the last of them.
record Bounded (r : RuntimeStageReport) : Type 0 where
  ordered : r.started_at ≤ last_time r.started_at r.stages
  bounded : total_ms r.stages ≤ (last_time r.started_at r.stages - r.started_at) / 1000000

elapsed_ms-le : (started now : ℕ) → elapsed_ms started now ≤ (now - started) / 1000000
unfolding elapsed_ms
elapsed_ms-le started now = ground arith

add_stage-stages :
    (c : StageCall) (r : RuntimeStageReport)
    → (stage : RuntimeStage) × ((add_call c r).stages ≡ r.stages ++ stage ∷ [])
      × ((add_call c r).started_at ≡ r.started_at)
      × (stage.at_time ≡ c.now)
      × (stage.duration_ms ≡ elapsed_ms (last_time r.started_at r.stages) c.now)
unfolding add_stage
add_stage-stages c r =
    let status = if is_empty c.status then "ok" else c.status in
    (
      record {
        name = c.name;
        status = status;
        code = c.code;
        detail = c.detail;
        rollback_applied = c.rollback_applied;
        at_time = c.now;
        duration_ms = elapsed_ms (last_time r.started_at r.stages) c.now;
      },
      ground arith,
      ground arith,
      refl,
      refl,
    )

add_call-Bounded :
    (c : StageCall) (r : RuntimeStageReport)
    → last_time r.started_at r.stages ≤ c.now
    → Bounded r
    → Bounded (add_call c r) × (last_time (add_call c r).started_at (add_call c r).stages ≡ c.now)
add_call-Bounded c r later h =
    let (stage, is_stages, is_start, is_time, is_ms) = add_stage-stages c r in
    let last =
      ap (last_time (add_call c r).started_at) is_stages
      ∙ last_time-append (add_call c r).started_at r.stages stage
      ∙ is_time in
    let total = ap total_ms is_stages ∙ total_ms-append r.stages stage in
    (
      record {
        ordered = rw (last, is_start) (omega (arith, h.ordered));
        bounded =
            rw (last, is_start, total, is_ms)
              (omega (
                arith,
                h.ordered,
                h.bounded,
                elapsed_ms-le (last_time r.started_at r.stages) c.now,
              ));
      },
      last,
    )

add_calls-Bounded :
    (calls : List StageCall) (r : RuntimeStageReport)
    → InOrder (last_time r.started_at r.stages) calls
    → Bounded r
    → Bounded (add_calls calls r)
unfolding add_calls
add_calls-Bounded [] r o h = h
add_calls-Bounded (c ∷ calls) r o h =
    let (next, last) = add_call-Bounded c r o.0 h in
    add_calls-Bounded calls (add_call c r) (rw last o.1) next

-- With a clock that does not go back, the durations of the stages of a report, added up, are at most
-- the milliseconds from the start of the report to its last stage.
pub add_calls_bounds :
    (operation : String) (now : ℕ) (calls : List StageCall)
    → InOrder now calls
    → let r = add_calls calls (new_runtime_stage_report now operation) in
      total_ms r.stages ≤ (last_time r.started_at r.stages - r.started_at) / 1000000
unfolding new_runtime_stage_report last_time total_ms
add_calls_bounds operation now calls o =
    (add_calls-Bounded calls (new_runtime_stage_report now operation) o
      (record { ordered = omega arith; bounded = omega arith })).bounded

-- The last of the calls that failed, or the one before them.
pub last_failed : Option StageCall → List StageCall → Option StageCall
last_failed o [] = o
last_failed o (c ∷ calls) = last_failed (if str_eq c.status "failed" then some c else o) calls

-- What a report says of the last stage that failed.
abbrev pub ReportsLast : Option StageCall → RuntimeStageReport → Type 0
ReportsLast none r =
    (r.status ≡ "running")
    × (r.failed_stage ≡ "")
    × (r.last_code ≡ "")
    × (r.rollback_applied ≡ false)
    × (r.finished_at ≡ 0)
ReportsLast (some c) r =
    (r.status ≡ "failed")
    × (r.failed_stage ≡ c.name)
    × (r.last_code ≡ c.code)
    × (r.rollback_applied ≡ c.rollback_applied)
    × (r.finished_at ≡ c.now)

given_status : (s : String) → str_eq (if is_empty s then "ok" else s) "failed" ≡ str_eq s "failed"
given_status String.[] = refl
given_status (String.◌∷◌ c s) = refl

add_call-ReportsLast :
    (c : StageCall) (o : Option StageCall) (r : RuntimeStageReport)
    → ReportsLast o r
    → ReportsLast (if str_eq c.status "failed" then some c else o) (add_call c r)
unfolding add_stage
add_call-ReportsLast c none r h = elim (Bool-cases (str_eq c.status "failed")) [
  | inl e ↦ rw (given_status c.status, e) (refl, refl, refl, refl, refl)
  | inr e ↦ rw (given_status c.status, e) h
]
add_call-ReportsLast c (some x) r h = elim (Bool-cases (str_eq c.status "failed")) [
  | inl e ↦ rw (given_status c.status, e) (refl, refl, refl, refl, refl)
  | inr e ↦ rw (given_status c.status, e) h
]

add_calls-ReportsLast :
    (calls : List StageCall) (o : Option StageCall) (r : RuntimeStageReport)
    → ReportsLast o r
    → ReportsLast (last_failed o calls) (add_calls calls r)
unfolding add_calls last_failed
add_calls-ReportsLast [] o r h = h
add_calls-ReportsLast (c ∷ calls) o r h =
    add_calls-ReportsLast calls (if str_eq c.status "failed" then some c else o) (add_call c r)
      (add_call-ReportsLast c o r h)

-- A report says of the last stage that failed its name, its code, whether it was rolled back and when
-- it was; with no such stage it is running and says none of these.
pub add_calls_last :
    (operation : String) (now : ℕ) (calls : List StageCall)
    → ReportsLast
        (last_failed none calls)
        (add_calls calls (new_runtime_stage_report now operation))
unfolding new_runtime_stage_report
add_calls_last operation now calls =
    add_calls-ReportsLast calls none (new_runtime_stage_report now operation)
      (refl, refl, refl, refl, refl)
