-- ===== src/Reset/Laws.antt =====
-- What a run of the reset guarantees, whatever its hooks and the file system answer
-- (controller.go, report.go, mode.go, lock.go).
use rknno_vpn.Prelude.{
  ℕ, String, Bool, true, false, ◌≡◌, ◌↔◌, inl, inr, refl, sym, ap, ◌∙◌, List, [], ◌∷◌, ◌++◌, none,
  is_nil, is_some, arith, str_eq, Bool-cases, if◌then◌else◌, ◌||◌, ◌&&◌, not,
}
use rknno_vpn.Runtime.Types.{BackendKind, ResetReport}
use rknno_vpn.Runtime.Tasks.{reset_failure}
use rknno_vpn.Reset.Files.{Files, enter_reset_mode}
use rknno_vpn.Reset.Controller.{
  Answers, Reset, run_steps, run, prepare, clean, has_errors, finish_report, new_report_controller,
  leave_step,
}
use rknno_vpn.Reset.Steps.{
  names, no_failure, Stepped, enter_step-Stepped, stop_subsystems_step-Stepped,
  stop_core_step-Stepped, script_step-Stepped, clear_step-Stepped, remove_stale_step-Stepped,
  verify_step-Stepped, leave_step-Stepped,
}

-- The invariant of a report: its errors, its status and the statuses of its steps agree.
pub record Sound (r : ResetReport) : Type 0 where
  pub agree : is_nil r.errors ≡ no_failure r.steps
  pub status : r.status ≡ (if is_nil r.errors then "ok" else "partial")

Stepped-Sound :
    {name : String} {failed : Bool} {r r' : ResetReport}
    → Stepped name failed r r'
    → Sound r
    → Sound r'
Stepped-Sound {failed = failed} {r = r} {r' = r'} s h = record {
  agree = s.errors_grow ∙ ap (λ (b : Bool). b && not failed) h.agree ∙ sym s.failures_grow;
  status =
      let st = s.status_kept in
      let gr = s.errors_grow in let hs = h.status in ground (arith, st, gr, hs);
}

prepare-Sound : (a : Answers) (r : Reset) → Sound r.report → Sound (prepare a r).report
unfolding prepare
prepare-Sound a r h = Stepped-Sound (script_step-Stepped a _) (
    Stepped-Sound (stop_core_step-Stepped a _)
      (Stepped-Sound (stop_subsystems_step-Stepped a _) (Stepped-Sound (enter_step-Stepped a r) h)))

clean-Sound : (a : Answers) (r : Reset) → Sound r.report → Sound (clean a r).report
unfolding clean
clean-Sound a r h =
    Stepped-Sound (verify_step-Stepped a _)
      (Stepped-Sound (remove_stale_step-Stepped a _) (Stepped-Sound (clear_step-Stepped a r) h))

-- Whether one of the four steps before the cleanup fails.
abbrev pub prepare_fails : Answers → Files → Bool
prepare_fails a files =
    is_some (enter_reset_mode a.faults a.now files).1
    || is_some a.rescue_reset_core
    || is_some a.exec_rescue_reset

abbrev pub prepare_names : List String
prepare_names = "enter-reset-mode" ∷ "stop-subsystems" ∷ "stop-core" ∷ "rescue-cleanup-script" ∷ []

abbrev pub clean_names : List String
clean_names = "clear-runtime-state" ∷ "remove-stale-runtime-files" ∷ "verify-cleanup" ∷ []

abbrev pub leave_name : List String
leave_name = "leave-reset-mode" ∷ []

module _ (g : ℕ) (b : BackendKind) (a : Answers) (files : Files) where
  prepare-names : names (prepare a (new_report_controller g b files)).report ≡ prepare_names
  unfolding prepare new_report_controller
  prepare-names =
      rw
        (
          (script_step-Stepped a _).names_grow,
          (stop_core_step-Stepped a _).names_grow,
          (stop_subsystems_step-Stepped a _).names_grow,
          (enter_step-Stepped a _).names_grow,
        )
        refl

  pub prepare-errors :
      has_errors (prepare a (new_report_controller g b files)) ≡ prepare_fails a files
  unfolding prepare new_report_controller
  prepare-errors =
      rw
        (
          (script_step-Stepped a _).errors_grow,
          (stop_core_step-Stepped a _).errors_grow,
          (stop_subsystems_step-Stepped a _).errors_grow,
          (enter_step-Stepped a _).errors_grow,
        )
        (ground arith)

  prepared-Sound : Sound (prepare a (new_report_controller g b files)).report
  unfolding new_report_controller
  prepared-Sound = prepare-Sound a _ (record { agree = refl; status = refl })

append-3 :
    (xs : List String) (x y z : String)
    → ((xs ++ x ∷ []) ++ y ∷ []) ++ z ∷ [] ≡ xs ++ x ∷ y ∷ z ∷ []
append-3 [] x y z = refl
append-3 (w ∷ xs) x y z = ap (λ (l : List String). w ∷ l) (append-3 xs x y z)

clean-names : (a : Answers) (r : Reset) → names (clean a r).report ≡ names r.report ++ clean_names
unfolding clean
clean-names a r =
    rw
      (
        (verify_step-Stepped a _).names_grow,
        (remove_stale_step-Stepped a _).names_grow,
        (clear_step-Stepped a r).names_grow,
      )
      (append-3 (names r.report) _ _ _)

leave-names :
    (a : Answers) (r : Reset) → names (leave_step a r).report ≡ names r.report ++ leave_name
leave-names a r = (leave_step-Stepped a r).names_grow

pub finish_report-steps : (r : ResetReport) → (finish_report r).steps ≡ r.steps
unfolding finish_report
finish_report-steps r = refl

finish_report-names : (r : ResetReport) → names (finish_report r) ≡ names r
unfolding finish_report
finish_report-names r = refl

quiet_status :
    (word : String) (noisy : Bool) (status : String)
    → status ≡ "ok"
    → str_eq "clean_with_warnings" word ≡ false
    → str_eq "ok" word ≡ false
    → str_eq (if noisy then "clean_with_warnings" else status) word ≡ false
quiet_status word true status e h k = h
quiet_status word false status e h k = rw e k

-- A report that agrees with its steps counts as a failure exactly if one of them failed.
finish_report-failure :
    (r : ResetReport)
    → Sound r
    → (reset_failure (finish_report r) ≡ none) ↔ (no_failure (finish_report r).steps ≡ true)
unfolding finish_report reset_failure
finish_report-failure r h =
    let ag = h.agree in
    let st = h.status in
    elim (Bool-cases (is_nil r.errors)) [
      | inl e ↦
          (let ok =
              quiet_status "failed" (not (is_nil r.warnings) || not (is_nil r.leftovers)) r.status
                (ground (arith, st, e)) refl refl in
            let okp =
              quiet_status "partial" (not (is_nil r.warnings) || not (is_nil r.leftovers)) r.status
                (ground (arith, st, e)) refl refl in
            (λ _. sym ag ∙ e, λ _. rw (e, ok, okp) refl))
      | inr e ↦ (λ f. ground (arith, st, e, f), λ k. ground (arith, ag, e, k))
    ]

module _ (g : ℕ) (b : BackendKind) (a : Answers) (files : Files) where
  pub run_steps-Sound : Sound (run_steps g b a files).report
  unfolding run_steps
  run_steps-Sound =
      let prepared = prepare a (new_report_controller g b files) in
      elim (Bool-cases (has_errors prepared)) [
        | inl e ↦ rw e (Stepped-Sound (leave_step-Stepped a prepared) (prepared-Sound g b a files))
        | inr e ↦ rw e (
            Stepped-Sound (leave_step-Stepped a (clean a prepared))
              (clean-Sound a prepared (prepared-Sound g b a files)))
      ]

  -- A run takes its four first steps, the three of the cleanup exactly if none of the four failed,
  -- and the step that leaves the reset mode, in this order.
  pub run-names :
      names (run g b a files)
      ≡ prepare_names ++ (if prepare_fails a files then [] else clean_names) ++ leave_name
  unfolding run run_steps
  run-names =
      let prepared = prepare a (new_report_controller g b files) in
      elim (Bool-cases (prepare_fails a files)) [
        | inl e ↦
            rw
              (
                finish_report-names,
                prepare-errors g b a files,
                e,
                leave-names a prepared,
                prepare-names g b a files,
              )
              refl
        | inr e ↦
            rw
              (
                finish_report-names,
                prepare-errors g b a files,
                e,
                leave-names a (clean a prepared),
                clean-names a prepared,
                prepare-names g b a files,
              )
              refl
      ]

  -- A run counts as a failure exactly if one of its steps failed.
  pub reset_failure-run :
      (reset_failure (run g b a files) ≡ none) ↔ (no_failure (run g b a files).steps ≡ true)
  unfolding run
  reset_failure-run = finish_report-failure _ run_steps-Sound
