-- ===== src/Apply/Reloads.antt =====
-- What the application of a configuration guarantees, whatever the callbacks answer
-- (runtime_config.go).
use rknno_vpn.Prelude.{
  true, ◌≡◌, ◌⊎◌, List, [], ◌∷◌, ◌++◌, Option, none, some, is_some, arith, if◌then◌else◌, ◌&&◌, not,
}
use rknno_vpn.Apply.Laws.{answer, first_failure, wrap, missing}
use rknno_vpn.Apply.Runtime.{
  RuntimeConfigApplyInput, RuntimeConfigApplyDeps, RuntimeConfigError, nil_config, no_runner,
  no_reload_hook, not_idle, persist, sync, reload_failed, saved, committed, submitted, operation_of,
  reload_config, save_config, apply_runtime_config,
}

module _ {C E : Type 0} (input : RuntimeConfigApplyInput C) (deps : RuntimeConfigApplyDeps E) where
  abbrev pub save_tests : List (Option (RuntimeConfigError E))
  save_tests =
      missing nil_config input.new_config
      ∷ wrap not_idle (answer deps.ensure_idle)
      ∷ wrap persist deps.save
      ∷ []

  abbrev pub submit_tests : List (Option (RuntimeConfigError E))
  submit_tests =
      wrap sync (answer deps.sync_desired_state)
      ∷ (if input.reload && input.was_running
          then first_failure (
              missing no_runner deps.run_operation
              ∷ (if deps.reload_runtime then none else some no_reload_hook)
              ∷ wrap reload_failed (answer deps.run_operation)
              ∷ [])
          else none)
      ∷ []

  -- Nothing is changed where a test before the save or the save itself fails, with the error of the
  -- first of them. Otherwise the configuration is written, then committed; an error after that is
  -- that of the desired state or, for a reload of a running runtime, of its operation, which is
  -- submitted exactly if the desired state was taken and the hooks are there.
  pub apply_runtime_config-effects :
      let r = apply_runtime_config input deps in
      ((r.0 ≡ []) × (r.1 ≡ first_failure save_tests) × (is_some r.1 ≡ true))
      ⊎ ((first_failure save_tests ≡ none)
          × (r.1 ≡ first_failure submit_tests)
          × (r.0 ≡ elim input.new_config [
            | none ↦ []
            | some cfg ↦
                saved cfg ∷ (if deps.commit_config then committed cfg ∷ [] else [])
                ++ (if input.reload
                      && input.was_running
                      && deps.reload_runtime
                      && is_some deps.run_operation
                      && not (is_some (answer deps.sync_desired_state))
                    then submitted
                        (operation_of input)
                        cfg
                        input.needs_full_restart
                        input.needs_netstack_reapply
                      ∷ []
                    else [])
          ]))
  unfolding apply_runtime_config save_config reload_config
  apply_runtime_config-effects = ground arith
