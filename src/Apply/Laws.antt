-- ===== src/Apply/Laws.antt =====
-- What the transaction and the application of a configuration guarantee, whatever the callbacks answer
-- (transaction.go, runtime_config.go).
use rknno_vpn.Prelude.{
  Bool, true, false, ◌≡◌, ◌⊎◌, List, [], ◌∷◌, ◌++◌, Option, none, some, is_some, arith, is_empty,
  if◌then◌else◌,
}
use rknno_vpn.Runtime.Types.{OperationKind}
use rknno_vpn.Apply.Transaction.{
  MethodContract, runtime_operation_for_action, ConfigTransaction, validate, render,
  TransactionError, config_is_nil, action_not_configured, no_persistence, no_apply, unknown_action,
  invalid, not_idle, persist, apply_failed, applied, refused, Call, validates, renders, saves,
  checks_idle, asks_running, applies, gate, run_apply, run_save, run_checks, run,
}

-- The answer of a callback, where a nil callback answers no error.
abbrev pub answer : {E : Type 0} → Option (Option E) → Option E
answer none = none
answer (some err) = err

-- The first error of a list of tests.
abbrev pub first_failure : {E : Type 0} → List (Option E) → Option E
first_failure [] = none
first_failure (none ∷ tests) = first_failure tests
first_failure (some err ∷ tests) = some err

abbrev pub wrap : {E F : Type 0} → (E → F) → Option E → Option F
wrap f none = none
wrap f (some e) = some (f e)

-- An error where a value is missing.
abbrev pub missing : {E V : Type 0} → E → Option V → Option E
missing err none = some err
missing err (some v) = none

module _ {C E : Type 0} (contracts : List MethodContract) (tx : ConfigTransaction E)
    (next : Option C) (reload : Bool) where
  -- The tests that a configuration passes before it is saved, in their order.
  abbrev pub tests : List (Option (TransactionError E))
  tests =
      missing config_is_nil next
      ∷ (if is_empty tx.action then some action_not_configured else none)
      ∷ missing (unknown_action tx.action) (runtime_operation_for_action contracts tx.action)
      ∷ wrap (invalid validate) (answer tx.validate_config)
      ∷ wrap (invalid render) (answer tx.check_runtime_projection)
      ∷ wrap not_idle (answer tx.ensure_idle)
      ∷ missing no_persistence tx.save_profile
      ∷ wrap persist (answer tx.save_profile)
      ∷ []

  -- The configuration is saved exactly if every test before the save and the save itself succeed;
  -- otherwise the error of the run is that of the first of them that fails, in this order.
  pub run-saves :
      let r = run contracts tx next reload in
      ((r.result.config_saved ≡ true) × (first_failure tests ≡ none))
      ⊎ ((r.result.config_saved ≡ false) × (r.err ≡ first_failure tests) × (is_some r.err ≡ true))
  unfolding run run_checks run_save run_apply gate
  run-saves = ground arith

abbrev pub called : {C V : Type 0} → Option V → Call C → List (Call C)
called none call = []
called (some v) call = call ∷ []

-- A run that saves makes its calls in this order, each of a callback that is not nil: validation,
-- rendering, the idle test, the save, the question whether the runtime runs, and one application,
-- with the configuration, the reload flag and the operation of the action. Its error is the
-- application's, or that there is none to call.
pub run-calls :
    {C E : Type 0} (contracts : List MethodContract) (tx : ConfigTransaction E) (cfg : C)
    (reload : Bool) (operation : OperationKind)
    → runtime_operation_for_action contracts tx.action ≡ some operation
    → (run contracts tx (some cfg) reload).result.config_saved ≡ true
    → let r = run contracts tx (some cfg) reload in
      (r.calls
        ≡ called tx.validate_config (validates cfg)
          ++ called tx.check_runtime_projection (renders cfg)
          ++ called tx.ensure_idle checks_idle
          ++ saves cfg ∷ called tx.runtime_running asks_running
          ++ elim tx.apply_config_with_result [
            | some _ ↦ applies cfg reload operation ∷ []
            | none ↦ called tx.apply_config (applies cfg reload operation)
          ])
      × (r.result.runtime_operation ≡ some operation)
      × (r.err ≡ elim tx.apply_config_with_result [
        | some (applied _) ↦ none
        | some (refused err) ↦ some (apply_failed err)
        | none ↦ elim tx.apply_config [ none ↦ some no_apply | some err ↦ wrap apply_failed err ]
      ])
unfolding run run_checks run_save run_apply gate
run-calls contracts tx cfg reload operation e saved = ground (arith, e, saved)
