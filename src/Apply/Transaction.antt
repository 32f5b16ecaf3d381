-- ===== src/Apply/Transaction.antt =====
-- The transaction of a configuration (transaction.go). Every callback is called at most once in a run,
-- so that a callback is its answer, and `none` is a nil callback; the calls are recorded in their
-- order. The configuration and the callbacks' errors are elements of any type.
use rknno_vpn.Prelude.{
  String, Bool, true, false, List, [], ◌∷◌, ◌++◌, Option, none, some, str_eq, is_empty,
  if◌then◌else◌,
}
use rknno_vpn.Runtime.Types.{OperationKind, config_mutation, profile_apply, apply_desired_state}

-- `Method` and `Operation.Type` of a contract; an operation that is nil has no type.
pub record MethodContract : Type 0 where
  pub method : String
  pub operation : Option String

-- The loop of `MethodOperationType` over the contracts of the manifest.
unfoldable pub find_operation : List MethodContract → String → Option String
find_operation [] method = none
find_operation (contract ∷ contracts) method =
    let rest = find_operation contracts method in
    if str_eq contract.method method
    then elim contract.operation [
      | none ↦ none
      | some type ↦ if is_empty type then none else some type
    ]
    else rest

unfoldable pub method_operation_type : List MethodContract → String → Option String
method_operation_type contracts method =
    if is_empty method then none else find_operation contracts method

unfoldable pub runtime_operation_for_type : String → Option OperationKind
runtime_operation_for_type type =
    if str_eq type "config-mutation"
    then some config_mutation
    else if str_eq type "profile-apply"
    then some profile_apply
    else if str_eq type "applyDesiredState"
    then some apply_desired_state
    else none

unfoldable pub runtime_operation_for_action : List MethodContract → String → Option OperationKind
runtime_operation_for_action contracts action = elim (method_operation_type contracts action) [
  | none ↦ none
  | some type ↦ runtime_operation_for_type type
]

pub record ConfigApplyResult : Type 0 where
  pub runtime_apply : String
  pub runtime_applied : Bool
  pub runtime_apply_mode : String
  pub runtime_apply_reason : String
  pub requires_hot_swap : Bool

pub record ConfigTransactionResult : Type 0 where
  pub action : String
  pub config_saved : Bool
  pub runtime_was_running : Bool
  pub runtime_operation : Option OperationKind
  pub applied : ConfigApplyResult

abbrev pub not_applied : ConfigApplyResult
not_applied = record {
  runtime_apply = "";
  runtime_applied = false;
  runtime_apply_mode = "";
  runtime_apply_reason = "";
  requires_hot_swap = false;
}

abbrev pub no_result : ConfigTransactionResult
no_result = record {
  action = "";
  config_saved = false;
  runtime_was_running = false;
  runtime_operation = none;
  applied = not_applied;
}

-- The stage of a `ConfigValidationError`.
pub data Stage : Type 0 where
  validate render : Stage

pub data TransactionError (E : Type 0) : Type 0 where
  config_is_nil action_not_configured no_persistence no_apply : TransactionError E
  unknown_action : String → TransactionError E
  invalid : Stage → E → TransactionError E
  not_idle persist apply_failed : E → TransactionError E

-- What a call of `ApplyConfigWithResult` gives.
pub data Applied (E : Type 0) : Type 0 where
  applied : ConfigApplyResult → Applied E
  refused : E → Applied E

pub record ConfigTransaction (E : Type 0) : Type 0 where
  pub action : String
  pub validate_config : Option (Option E)
  pub check_runtime_projection : Option (Option E)
  pub ensure_idle : Option (Option E)
  pub save_profile : Option (Option E)
  pub apply_config : Option (Option E)
  pub apply_config_with_result : Option (Applied E)
  pub runtime_running : Option Bool

-- A call of a callback with its arguments.
pub data Call (C : Type 0) : Type 0 where
  validates renders saves : C → Call C
  checks_idle asks_running : Call C
  applies : C → Bool → OperationKind → Call C

pub record Run (C E : Type 0) : Type 0 where
  pub result : ConfigTransactionResult
  pub err : Option (TransactionError E)
  pub calls : List (Call C)

module _ {C E : Type 0} where
  abbrev pub ends : ConfigTransactionResult → List (Call C) → Option (TransactionError E) → Run C E
  ends result calls err = record { result = result; err = err; calls = calls }

  -- A callback that is not configured is not called, and answers no error.
  unfoldable pub gate : Option (Option E) → Call C → List (Call C) × Option E
  gate none call = ([], none)
  gate (some err) call = (call ∷ [], err)

  -- `Run` from the application on.
  unfoldable pub run_apply :
      ConfigTransaction E
      → C
      → Bool
      → OperationKind
      → ConfigTransactionResult
      → List (Call C)
      → Run C E
  run_apply tx cfg reload operation result calls = elim tx.apply_config_with_result [
    | some answer ↦
        let called = calls ++ applies cfg reload operation ∷ [] in
        elim answer [
          | refused err ↦ ends result called (some (apply_failed err))
          | applied r ↦ ends (record result { applied = r }) called none
        ]
    | none ↦ elim tx.apply_config [
      | none ↦ ends result calls (some no_apply)
      | some err ↦
          ends result (calls ++ applies cfg reload operation ∷ [])
            (elim err [ none ↦ none | some e ↦ some (apply_failed e) ])
    ]
  ]

  -- `Run` from the save on.
  unfoldable pub run_save :
      ConfigTransaction E
      → C
      → Bool
      → OperationKind
      → ConfigTransactionResult
      → List (Call C)
      → Run C E
  run_save tx cfg reload operation result calls = elim tx.save_profile [
    | none ↦ ends result calls (some no_persistence)
    | some (some err) ↦ ends result (calls ++ saves cfg ∷ []) (some (persist err))
    | some none ↦
        let saved = record result { config_saved = true } in
        elim tx.runtime_running [
          | none ↦ run_apply tx cfg reload operation saved (calls ++ saves cfg ∷ [])
          | some running ↦
              run_apply tx cfg reload operation (record saved { runtime_was_running = running })
                (calls ++ saves cfg ∷ asks_running ∷ [])
        ]
  ]

  -- `Run` from the validation on.
  unfoldable pub run_checks :
      ConfigTransaction E → C → Bool → OperationKind → ConfigTransactionResult → Run C E
  run_checks tx cfg reload operation result =
      let (validated, validation) = gate tx.validate_config (validates cfg) in
      let (rendered, rendering) = gate tx.check_runtime_projection (renders cfg) in
      let (idled, idleness) = gate tx.ensure_idle checks_idle in
      elim validation [
        | some err ↦ ends result validated (some (invalid validate err))
        | none ↦ elim rendering [
          | some err ↦ ends result (validated ++ rendered) (some (invalid render err))
          | none ↦ elim idleness [
            | some err ↦ ends result (validated ++ rendered ++ idled) (some (not_idle err))
            | none ↦ run_save tx cfg reload operation result (validated ++ rendered ++ idled)
          ]
        ]
      ]

  unfoldable pub run : List MethodContract → ConfigTransaction E → Option C → Bool → Run C E
  run contracts tx next reload = elim next [
    | none ↦ ends no_result [] (some config_is_nil)
    | some cfg ↦
        if is_empty tx.action
        then ends no_result [] (some action_not_configured)
        else (let result = record no_result { action = tx.action } in
            elim (runtime_operation_for_action contracts tx.action) [
              | none ↦ ends result [] (some (unknown_action tx.action))
              | some operation ↦
                  run_checks tx cfg reload operation
                    (record result { runtime_operation = some operation })
            ])
  ]

-- `RuntimeCode` of the errors that have one.
unfoldable pub runtime_code : {E : Type 0} → TransactionError E → Option String
runtime_code (invalid validate err) = some "CONFIG_VALIDATION_FAILED"
runtime_code (invalid render err) = some "CONFIG_RENDER_FAILED"
runtime_code _ = none
