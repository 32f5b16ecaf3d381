-- ===== src/Reset/Steps.antt =====
-- What each step of a reset does to its report (controller.go, report.go).
use rknno_vpn.Prelude.{
  String, Bool, true, false, ◌≡◌, inl, inr, refl, ap, ◌∙◌, List, [], ◌∷◌, ◌++◌, map, is_nil,
  is_some, arith, str_eq, Bool-cases, is_empty, if◌then◌else◌, ◌&&◌, not,
}
use mathlib.Core.List.{map-append}
use rknno_vpn.Runtime.Types.{ResetStep, ResetReport}
use rknno_vpn.Runtime.State.{or_text}
use rknno_vpn.Reset.Files.{enter_reset_mode, leave_reset_mode, remove_stale_runtime_files}
use rknno_vpn.Reset.Controller.{
  Answers, Reset, calling, StepResult, run_step, enter_step, stop_subsystems_step, stop_core_step,
  script_step, clear_step, remove_stale_step, verify_step, leave_step, set_leftovers, stale_result,
  verify_cleanup,
}

abbrev pub names : ResetReport → List String
names report = map (λ (s : ResetStep). s.name) report.steps

abbrev pub no_failure : List ResetStep → Bool
no_failure [] = true
no_failure (s ∷ steps) = not (str_eq s.status "failed") && no_failure steps

-- What one step of the run does to the report.
pub record Stepped (name : String) (failed : Bool) (r r' : ResetReport) : Type 0 where
  pub names_grow : names r' ≡ names r ++ name ∷ []
  pub errors_grow : is_nil r'.errors ≡ (is_nil r.errors && not failed)
  pub failures_grow : no_failure r'.steps ≡ (no_failure r.steps && not failed)
  pub status_kept : r'.status ≡ (if failed then "partial" else r.status)

names-append :
    (xs : List ResetStep) (s : ResetStep)
    → map (λ (t : ResetStep). t.name) (xs ++ s ∷ [])
      ≡ map (λ (t : ResetStep). t.name) xs ++ s.name ∷ []
names-append xs s = map-append _ xs (s ∷ [])

append_one-nil : {A : Type 0} (xs : List A) (x : A) → is_nil (xs ++ x ∷ []) ≡ false
append_one-nil [] x = refl
append_one-nil (y ∷ xs) x = refl

no_failure-append :
    (xs : List ResetStep) (s : ResetStep)
    → no_failure (xs ++ s ∷ []) ≡ (no_failure xs && not (str_eq s.status "failed"))
no_failure-append [] s = ground arith
no_failure-append (x ∷ xs) s = let rest = no_failure-append xs s in ground (arith, rest)

step_status :
    (status : String)
    → str_eq status "failed" ≡ false
    → str_eq (or_text status "ok") "failed" ≡ false
step_status status e = elim (Bool-cases (is_empty status)) [ inl h ↦ rw h refl | inr h ↦ rw h e ]

run_step-Stepped :
    (name : String) (result : StepResult) (r : Reset)
    → str_eq result.status "failed" ≡ false
    → Stepped name (is_some result.err) r.report (run_step name result r).report
unfolding run_step
run_step-Stepped name result r e = record {
  names_grow = grind (arith, names-append);
  errors_grow = grind (arith, append_one-nil);
  failures_grow =
      (let fine = step_status result.status e in grind (arith, no_failure-append, fine));
  status_kept = ground arith;
}

pub set_leftovers-kept :
    (leftovers : List String) (r : Reset)
    → (names (set_leftovers leftovers r).report ≡ names r.report)
      × ((set_leftovers leftovers r).report.errors ≡ r.report.errors)
      × ((set_leftovers leftovers r).report.steps ≡ r.report.steps)
      × ((set_leftovers leftovers r).report.status ≡ r.report.status)
unfolding set_leftovers
set_leftovers-kept leftovers r = ground arith

stale_result-status :
    (names : List String) (status : String)
    → status ≡ (if is_nil names then "already_clean" else "ok")
    → str_eq status "failed" ≡ false
stale_result-status [] status e = rw e refl
stale_result-status (x ∷ xs) status e = rw e refl

verify_status :
    (leftovers : List String)
    → str_eq (if is_nil leftovers then "ok" else "warning") "failed" ≡ false
verify_status [] = refl
verify_status (x ∷ xs) = refl

module _ (a : Answers) (r : Reset) where
  pub enter_step-Stepped :
      Stepped "enter-reset-mode"
        (is_some (enter_reset_mode a.faults a.now r.files).1)
        r.report
        (enter_step a r).report
  unfolding enter_step
  enter_step-Stepped = run_step-Stepped _ _ _ refl

  pub stop_subsystems_step-Stepped :
      Stepped "stop-subsystems" false r.report (stop_subsystems_step r).report
  unfolding stop_subsystems_step
  stop_subsystems_step-Stepped = run_step-Stepped _ _ _ refl

  pub stop_core_step-Stepped :
      Stepped "stop-core" (is_some a.rescue_reset_core) r.report (stop_core_step a r).report
  unfolding stop_core_step
  stop_core_step-Stepped = run_step-Stepped _ _ _ refl

  pub script_step-Stepped :
      Stepped "rescue-cleanup-script"
        (is_some a.exec_rescue_reset)
        r.report
        (script_step a r).report
  unfolding script_step
  script_step-Stepped = run_step-Stepped _ _ _ refl

  pub clear_step-Stepped : Stepped "clear-runtime-state" false r.report (clear_step r).report
  unfolding clear_step
  clear_step-Stepped = run_step-Stepped _ _ _ refl

  pub remove_stale_step-Stepped :
      Stepped "remove-stale-runtime-files"
        (is_some (remove_stale_runtime_files a.stale_files).1)
        r.report
        (remove_stale_step a r).report
  unfolding remove_stale_step stale_result
  remove_stale_step-Stepped = run_step-Stepped _ _ _ (stale_result-status _ _ refl)

  pub leave_step-Stepped :
      Stepped "leave-reset-mode"
        (is_some (leave_reset_mode a.faults r.files).1)
        r.report
        (leave_step a r).report
  unfolding leave_step
  leave_step-Stepped = run_step-Stepped _ _ _ refl

  pub verify_step-Stepped : Stepped "verify-cleanup" false r.report (verify_step a r).report
  unfolding verify_step
  verify_step-Stepped =
      let s =
        run_step-Stepped "verify-cleanup" _
          (set_leftovers a.verify_cleanup (calling verify_cleanup r))
          (verify_status a.verify_cleanup) in
      let k = set_leftovers-kept a.verify_cleanup (calling verify_cleanup r) in
      record {
        names_grow = s.names_grow ∙ ap (λ (xs : List String). xs ++ "verify-cleanup" ∷ []) k.0;
        errors_grow = s.errors_grow ∙ ap (λ (xs : List String). is_nil xs && true) k.1;
        failures_grow = s.failures_grow ∙ ap (λ (xs : List ResetStep). no_failure xs && true) k.2;
        status_kept = s.status_kept ∙ k.3;
      }
