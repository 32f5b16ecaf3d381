-- ===== src/Runtime/Errors.antt =====
-- What an error carries into the runtime's state (orchestrator.go from `errorCode` on).
use rknno_vpn.Prelude.{String, false, List, [], ◌∷◌, Option, none, some, is_empty, if◌then◌else◌}
use rknno_vpn.Runtime.Types.{Time, GoError, HealthSnapshot, ResetReport}

abbrev pub or_else {ℓ} : {A : Type ℓ} → Option A → A → A
or_else none d = d
or_else (some a) d = a

-- `HealthSnapshot{}`.
abbrev pub no_health : HealthSnapshot
no_health = record {
  core_ready = false;
  dns_ready = false;
  routing_ready = false;
  egress_ready = false;
  last_code = "";
  last_error = "";
  last_user_message = "";
  last_debug = "";
  rollback_applied = false;
  stage_report = none;
  checked_at = 0;
  checks = [];
}

-- `HealthSnapshot{LastError: message, CheckedAt: time.Now()}`.
abbrev pub health_with_error : String → Time → HealthSnapshot
health_with_error message now = record no_health { last_error = message; checked_at = now }

-- The code of `err`, which is nil where `none` stands.
unfoldable pub error_code : Option GoError → String
error_code none = ""
error_code (some err) = or_else err.runtime_code ""

unfoldable pub reset_report_from_error : Option GoError → Option ResetReport
reset_report_from_error none = none
reset_report_from_error (some err) = err.reset_report

unfoldable pub first_reset_report : List (Option ResetReport) → Option ResetReport
first_reset_report [] = none
first_reset_report (none ∷ reports) = first_reset_report reports
first_reset_report (some report ∷ reports) = some report

unfoldable pub health_from_error : GoError → Time → HealthSnapshot
health_from_error err now = record (health_with_error err.message now) {
  last_code = or_else err.runtime_code "";
  last_user_message = or_else err.user_message "";
  last_debug = or_else err.debug "";
  rollback_applied = or_else err.rollback false;
  stage_report = or_else err.stage_report none;
}

unfoldable pub first_error : List String → String
first_error [] = ""
first_error (err ∷ errors) = if is_empty err then first_error errors else err

-- `firstNonEmpty` of state_store.go.
unfoldable pub first_non_empty : List String → String
first_non_empty [] = ""
first_non_empty (value ∷ values) = if is_empty value then first_non_empty values else value
