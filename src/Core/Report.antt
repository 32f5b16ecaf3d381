-- ===== src/Core/Report.antt =====
-- The report of the stages of a start or a hot swap (`RuntimeStageReport` of manager.go). A time is in
-- nanoseconds, 0 the zero time; a clock that is read gives the time as an argument.
use rknno_vpn.Prelude.{
  ℕ, ◌-◌, ◌/◌, String, Bool, false, ◌&&◌, ◌||◌, List, [], ◌∷◌, ◌++◌, if◌then◌else◌, ltb, ◌==◌,
  str_eq, is_empty, is_nil,
}

pub record RuntimeStage : Type 0 where
  pub name : String
  pub status : String
  pub code : String
  pub detail : String
  pub rollback_applied : Bool
  pub at_time : ℕ
  pub duration_ms : ℕ

pub record RuntimeStageReport : Type 0 where
  pub operation : String
  pub status : String
  pub stages : List RuntimeStage
  pub failed_stage : String
  pub last_code : String
  pub rollback_applied : Bool
  pub started_at : ℕ
  pub finished_at : ℕ
  pub duration_ms : ℕ

unfoldable pub new_runtime_stage_report : ℕ → String → RuntimeStageReport
new_runtime_stage_report now operation = record {
  operation = operation;
  status = "running";
  stages = [];
  failed_stage = "";
  last_code = "";
  rollback_applied = false;
  started_at = now;
  finished_at = 0;
  duration_ms = 0;
}

-- The value of a report that was never made.
abbrev pub empty_report : RuntimeStageReport
empty_report = record {
  operation = "";
  status = "";
  stages = [];
  failed_stage = "";
  last_code = "";
  rollback_applied = false;
  started_at = 0;
  finished_at = 0;
  duration_ms = 0;
}

-- The milliseconds between two times, and 0 where the first is the zero time or the later one.
unfoldable pub elapsed_ms : ℕ → ℕ → ℕ
elapsed_ms started now = if started == 0 || ltb now started then 0 else (now - started) / 1000000

-- The time of the last stage, or that of the start.
unfoldable pub last_time : ℕ → List RuntimeStage → ℕ
last_time started [] = started
last_time started (stage ∷ stages) = last_time stage.at_time stages

unfoldable pub add_stage :
    ℕ → String → String → String → String → Bool → RuntimeStageReport → RuntimeStageReport
unfolding last_time elapsed_ms
add_stage now name given code detail rolled r =
    let status = if is_empty given then "ok" else given in
    let stage : RuntimeStage = record {
      name = name;
      status = status;
      code = code;
      detail = detail;
      rollback_applied = rolled;
      at_time = now;
      duration_ms = elapsed_ms (last_time r.started_at r.stages) now;
    } in
    let added : RuntimeStageReport = record r { stages = r.stages ++ stage ∷ [] } in
    if str_eq status "failed"
    then record added {
      status = "failed";
      failed_stage = name;
      last_code = code;
      rollback_applied = rolled;
      finished_at = now;
      duration_ms =
          if r.started_at == 0 || ltb now r.started_at
          then r.duration_ms
          else (now - r.started_at) / 1000000;
    }
    else added

unfoldable pub finish_ok : ℕ → RuntimeStageReport → RuntimeStageReport
finish_ok now r = record r {
  status = "ok";
  finished_at = now;
  duration_ms =
      if r.started_at == 0 || ltb now r.started_at
      then r.duration_ms
      else (now - r.started_at) / 1000000;
}

-- `Empty`.
report_empty : RuntimeStageReport → Bool
report_empty r = is_empty r.operation && is_nil r.stages
