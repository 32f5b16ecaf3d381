-- ===== src/Apply/Tests.antt =====
-- The transaction at concrete inputs: the properties applied.
use rknno_vpn.Prelude.{ℕ, String, true, false, ◌≡◌, ◌⊎◌, refl, List, [], ◌∷◌, none, some, is_some}
use rknno_vpn.Runtime.Types.{config_mutation}
use rknno_vpn.Apply.Transaction.{
  MethodContract, ConfigTransaction, apply_failed, refused, validates, saves, checks_idle,
  asks_running, applies, run, run_checks, run_save, run_apply, gate, runtime_operation_for_action,
  runtime_operation_for_type, method_operation_type, find_operation,
}
use rknno_vpn.Apply.Runtime.{RuntimeConfigApplyInput, RuntimeConfigApplyDeps}
use rknno_vpn.Apply.Laws.{first_failure, tests, run-saves, run-calls}

abbrev contracts : List MethodContract
contracts =
    record { method = "backend.status"; operation = none }
    ∷ record { method = "profile.dns.patch"; operation = some "config-mutation" }
    ∷ []

abbrev seven : ℕ
seven = 7

-- A transaction without a rendering test; the application is refused.
abbrev patch : ConfigTransaction String
patch = record {
  action = "profile.dns.patch";
  validate_config = some none;
  check_runtime_projection = none;
  ensure_idle = some none;
  save_profile = some none;
  apply_config = none;
  apply_config_with_result = some (refused "RUNTIME_BUSY");
  runtime_running = some true;
}

-- The same with an operation in flight.
abbrev busy_patch : ConfigTransaction String
busy_patch = record patch { ensure_idle = some (some "RUNTIME_BUSY") }

run-saves_example :
    let r = run contracts busy_patch (some seven) true in
    ((r.result.config_saved ≡ true)
      × (first_failure (tests contracts busy_patch (some seven) true) ≡ none))
    ⊎ ((r.result.config_saved ≡ false)
        × (r.err ≡ first_failure (tests contracts busy_patch (some seven) true))
        × (is_some r.err ≡ true))
run-saves_example = run-saves contracts busy_patch (some seven) true

run-calls_example :
    let r = run contracts patch (some seven) true in
    (r.calls
      ≡ validates 7 ∷ checks_idle ∷ saves 7 ∷ asks_running ∷ applies 7 true config_mutation ∷ [])
    × (r.result.runtime_operation ≡ some config_mutation)
    × (r.err ≡ some (apply_failed "RUNTIME_BUSY"))
unfolding run run_checks run_save run_apply gate runtime_operation_for_action
    runtime_operation_for_type method_operation_type find_operation
run-calls_example = run-calls contracts patch seven true config_mutation refl refl

abbrev input : RuntimeConfigApplyInput ℕ
input = record {
  new_config = some 7;
  reload = true;
  operation = none;
  was_running = true;
  needs_full_restart = false;
  needs_netstack_reapply = true;
}

abbrev deps : RuntimeConfigApplyDeps String
deps = record {
  ensure_idle = some none;
  save = none;
  commit_config = true;
  sync_desired_state = some none;
  run_operation = some (some "busy");
  reload_runtime = true;
}
