-- ===== src/Runtime/Report.antt =====
-- The step that a stage report stands at (orchestrator.go, operationStepFrom…).
use rknno_vpn.Prelude.{String, List, [], ◌∷◌, Option, none, some, is_empty, str_eq, if◌then◌else◌}
use rknno_vpn.Runtime.Types.{OperationStep, StageReport, object, struct, opaque}

abbrev pub no_step : OperationStep
no_step = record { name = ""; status = ""; code = ""; detail = "" }

-- The loop over the stages for the one that failed.
unfoldable pub find_stage : String → List OperationStep → OperationStep
find_stage failed_stage [] = record {
  name = failed_stage;
  status = "failed";
  code = "";
  detail = "";
}
find_stage failed_stage (stage ∷ stages) =
    if str_eq stage.name failed_stage then stage else find_stage failed_stage stages

-- The loop from the last stage down to the first, for one with a name.
unfoldable pub last_stage : List OperationStep → OperationStep
last_stage [] = no_step
last_stage (stage ∷ stages) =
    let later = last_stage stages in
    if is_empty later.name then (if is_empty stage.name then no_step else stage) else later

unfoldable pub operation_step_from_map : StageReport → OperationStep
unfolding find_stage last_stage
operation_step_from_map (object failed_stage stages) =
    if is_empty failed_stage then last_stage stages else find_stage failed_stage stages
operation_step_from_map (struct failed_stage stages) = no_step
operation_step_from_map opaque = no_step

unfoldable pub operation_step_from_struct : StageReport → OperationStep
unfolding find_stage last_stage
operation_step_from_struct (object failed_stage stages) = no_step
operation_step_from_struct (struct failed_stage none) = no_step
operation_step_from_struct (struct failed_stage (some stages)) =
    if is_empty failed_stage then last_stage stages else find_stage failed_stage stages
operation_step_from_struct opaque = no_step

unfoldable pub operation_step_from_report : Option StageReport → OperationStep
unfolding operation_step_from_map operation_step_from_struct
operation_step_from_report none = no_step
operation_step_from_report (some report) =
    let step = operation_step_from_map report in
    if is_empty step.name then operation_step_from_struct report else step
