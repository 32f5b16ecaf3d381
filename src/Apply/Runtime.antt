-- ===== src/Apply/Runtime.antt =====
-- The application of a configuration to the runtime (runtime_config.go). As in the transaction, a
-- callback is its answer and `none` a nil callback; an operation of `none` is the empty one.
use rknno_vpn.Prelude.{Bool, not, ◌||◌, List, [], ◌∷◌, ◌++◌, Option, none, some, if◌then◌else◌}
use rknno_vpn.Runtime.Types.{OperationKind, reload as reload_kind}

pub record RuntimeConfigApplyInput (C : Type 0) : Type 0 where
  pub new_config : Option C
  pub reload : Bool
  pub operation : Option OperationKind
  pub was_running : Bool
  pub needs_full_restart : Bool
  pub needs_netstack_reapply : Bool

-- The callbacks, and what `Save` answers.
pub record RuntimeConfigApplyDeps (E : Type 0) : Type 0 where
  pub ensure_idle : Option (Option E)
  pub save : Option E
  pub commit_config : Bool
  pub sync_desired_state : Option (Option E)
  pub run_operation : Option (Option E)
  pub reload_runtime : Bool

pub data RuntimeConfigError (E : Type 0) : Type 0 where
  nil_config no_runner no_reload_hook : RuntimeConfigError E
  not_idle persist sync reload_failed : E → RuntimeConfigError E

-- A step of the application that had its effect: the file written, the configuration committed, the
-- operation submitted with the reload hook's two flags.
pub data Effect (C : Type 0) : Type 0 where
  saved committed : C → Effect C
  submitted : OperationKind → C → Bool → Bool → Effect C

module _ {C : Type 0} where
  abbrev pub operation_of : RuntimeConfigApplyInput C → OperationKind
  operation_of input = elim input.operation [ none ↦ reload_kind | some kind ↦ kind ]

module _ {C E : Type 0} where
  -- From the test of the reload on.
  unfoldable pub reload_config :
      RuntimeConfigApplyInput C
      → RuntimeConfigApplyDeps E
      → C
      → List (Effect C) × Option (RuntimeConfigError E)
  reload_config input deps cfg =
      if not input.reload || not input.was_running then ([], none) else elim deps.run_operation [
        | none ↦ ([], some no_runner)
        | some answer ↦
            if deps.reload_runtime
            then ((
              submitted (operation_of input) cfg input.needs_full_restart
                    input.needs_netstack_reapply
                  ∷ [],
              elim answer [ none ↦ none | some err ↦ some (reload_failed err) ],
            ))
            else ([], some no_reload_hook)
      ]

  -- From the save on.
  unfoldable pub save_config :
      RuntimeConfigApplyInput C
      → RuntimeConfigApplyDeps E
      → C
      → List (Effect C) × Option (RuntimeConfigError E)
  save_config input deps cfg = elim deps.save [
    | some err ↦ ([], some (persist err))
    | none ↦
        let committing =
          if deps.commit_config then saved cfg ∷ committed cfg ∷ [] else saved cfg ∷ [] in
        elim deps.sync_desired_state [
          | none ↦ let (effects, err) = reload_config input deps cfg in (committing ++ effects, err)
          | some (some err) ↦ (committing, some (sync err))
          | some none ↦
              let (effects, err) = reload_config input deps cfg in (committing ++ effects, err)
        ]
  ]

  unfoldable pub apply_runtime_config :
      RuntimeConfigApplyInput C
      → RuntimeConfigApplyDeps E
      → List (Effect C) × Option (RuntimeConfigError E)
  apply_runtime_config input deps = elim input.new_config [
    | none ↦ ([], some nil_config)
    | some cfg ↦ elim deps.ensure_idle [
      | none ↦ save_config input deps cfg
      | some none ↦ save_config input deps cfg
      | some (some err) ↦ ([], some (not_idle err))
    ]
  ]
