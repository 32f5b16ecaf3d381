-- ===== src/Reset/Locking.antt =====
-- The lock of a reset: who takes it, who sees it, and that a run gives it back (controller.go,
-- mode.go, lock.go).
use rknno_vpn.Prelude.{
  ℕ, String, Bool, true, false, ◌≡◌, ◌⊎◌, inl, inr, refl, sym, ap, ◌∙◌, List, [], ◌∷◌, ◌++◌, Option,
  none, some, is_nil, is_some, arith, Bool-cases, if◌then◌else◌, not,
}
use rknno_vpn.Runtime.Types.{BackendKind, ResetStep}
use rknno_vpn.Reset.Files.{Files, Faults, leave_reset_mode}
use rknno_vpn.Reset.Controller.{
  done, Answers, Reset, StepResult, run_step, run_steps, run, prepare, clean, has_errors,
  finish_report, new_report_controller, enter_step, stop_subsystems_step, stop_core_step,
  script_step, clear_step, remove_stale_step, verify_step, leave_step, set_leftovers, HookCall,
  stop_subsystems, rescue_reset_core, exec_rescue_reset, clear_runtime_state, verify_cleanup,
  calling,
}
use rknno_vpn.Reset.Laws.{prepare_fails, prepare-errors}

module _ (name : String) (result : StepResult) (r : Reset) where
  run_step-files : (run_step name result r).files ≡ r.files
  unfolding run_step
  run_step-files = ground arith

  run_step-called : (run_step name result r).called ≡ r.called
  unfolding run_step
  run_step-called = ground arith

  run_step-leftovers : (run_step name result r).report.leftovers ≡ r.report.leftovers
  unfolding run_step
  run_step-leftovers = ground arith

  run_step-reboot : (run_step name result r).report.reboot_required ≡ r.report.reboot_required
  unfolding run_step
  run_step-reboot = ground arith

leave_reset_mode-lock :
    (faults : Faults) (files : Files)
    → ((leave_reset_mode faults files).0.lock ≡ none)
      ⊎ (is_some (leave_reset_mode faults files).1 ≡ true)
unfolding leave_reset_mode
leave_reset_mode-lock faults files = ground arith

-- The last step is the one that leaves the reset mode, and it failed.
pub record LeaveFailed (steps : List ResetStep) : Type 0 where
  pub before : List ResetStep
  pub last : ResetStep
  pub steps_are : steps ≡ before ++ last ∷ []
  pub is_leave : last.name ≡ "leave-reset-mode"
  pub is_failed : last.status ≡ "failed"

failed_last :
    (name : String) (err : Option String) (r : Reset)
    → is_some err ≡ true
    → (before : List ResetStep) × (last : ResetStep) × ((run_step name (done err) r).report.steps
        ≡ before ++ last ∷ [])
      × (last.name ≡ name)
      × (last.status ≡ "failed")
unfolding run_step
failed_last name none r e = absurd (cc e)
failed_last name (some x) r e =
    (r.report.steps, record { name = name; status = "failed"; detail = x }, refl, refl, refl)

leave_step-lock :
    (a : Answers) (r : Reset)
    → ((leave_step a r).files.lock ≡ none) ⊎ LeaveFailed (leave_step a r).report.steps
unfolding leave_step
leave_step-lock a r = elim (leave_reset_mode-lock a.faults r.files) [
  | inl e ↦ inl (ap (λ (f : Files). f.lock) (run_step-files "leave-reset-mode" _ _) ∙ e)
  | inr e ↦
      let (before, last, f, g, h) =
        failed_last "leave-reset-mode" (leave_reset_mode a.faults r.files).1
          (record r { files = (leave_reset_mode a.faults r.files).0 }) e in
      inr (record { before = before; last = last; steps_are = f; is_leave = g; is_failed = h })
]

abbrev hooks_of : Reset → List HookCall × List String × Bool
hooks_of r = (r.called, r.report.leftovers, r.report.reboot_required)

prepare-hooks :
    (a : Answers) (r : Reset)
    → r.called ≡ []
    → hooks_of (prepare a r) ≡ (
      stop_subsystems ∷ rescue_reset_core ∷ exec_rescue_reset ∷ [],
      r.report.leftovers,
      r.report.reboot_required,
    )
unfolding prepare enter_step stop_subsystems_step stop_core_step script_step
prepare-hooks a r e = simp (run_step-called, run_step-leftovers, run_step-reboot, e)

set_leftovers-hooks :
    (leftovers : List String) (r : Reset)
    → hooks_of (set_leftovers leftovers r)
      ≡ (r.called, leftovers, (if is_nil leftovers then r.report.reboot_required else true))
unfolding set_leftovers
set_leftovers-hooks [] r = refl
set_leftovers-hooks (x ∷ xs) r = refl

verify-hooks :
    (a : Answers) (r : Reset)
    → hooks_of (verify_step a r) ≡ (
      r.called ++ verify_cleanup ∷ [],
      a.verify_cleanup,
      (if is_nil a.verify_cleanup then r.report.reboot_required else true),
    )
unfolding verify_step
verify-hooks a r =
    simp (run_step-called, run_step-leftovers, run_step-reboot)
      (set_leftovers-hooks a.verify_cleanup (calling verify_cleanup r))

clean-hooks :
    (a : Answers) (r : Reset)
    → hooks_of (clean a r) ≡ (
      (r.called ++ clear_runtime_state ∷ []) ++ verify_cleanup ∷ [],
      a.verify_cleanup,
      (if is_nil a.verify_cleanup then r.report.reboot_required else true),
    )
unfolding clean clear_step remove_stale_step
clean-hooks a r = verify-hooks a _ ∙ simp (run_step-called, run_step-reboot)

leave-hooks : (a : Answers) (r : Reset) → hooks_of (leave_step a r) ≡ hooks_of r
unfolding leave_step
leave-hooks a r = simp (run_step-called, run_step-leftovers, run_step-reboot)

abbrev clean_with :
    List String → List HookCall × List String × Bool → List HookCall × List String × Bool
clean_with leftovers (called, _, reboot) = (
  (called ++ clear_runtime_state ∷ []) ++ verify_cleanup ∷ [],
  leftovers,
  (if is_nil leftovers then reboot else true),
)

if_nil : (xs : List String) → (if is_nil xs then false else true) ≡ not (is_nil xs)
if_nil [] = refl
if_nil (x ∷ xs) = refl

new-prepare-hooks :
    (g : ℕ) (b : BackendKind) (a : Answers) (files : Files)
    → hooks_of (prepare a (new_report_controller g b files))
      ≡ (stop_subsystems ∷ rescue_reset_core ∷ exec_rescue_reset ∷ [], [], false)
unfolding new_report_controller
new-prepare-hooks g b a files = prepare-hooks a _ refl

reboot_flag :
    (l : List String) (x : Bool)
    → x ≡ not (is_nil l)
    → (if is_nil l then x else true) ≡ not (is_nil l)
reboot_flag [] x e = e
reboot_flag (y ∷ l) x e = refl

final_hooks :
    (r : Reset) (called : List HookCall) (leftovers : List String)
    → hooks_of r ≡ (called, leftovers, not (is_nil leftovers))
    → (r.called ≡ called)
      × (r.report.leftovers ≡ leftovers)
      × ((if is_nil r.report.leftovers then r.report.reboot_required else true)
          ≡ not (is_nil r.report.leftovers))
final_hooks r called leftovers e =
    let l = ap (λ (h : List HookCall × List String × Bool). h.1) e in
    (
      ap (λ (h : List HookCall × List String × Bool). h.0) e,
      l,
      reboot_flag r.report.leftovers _ (
          ap (λ (h : List HookCall × List String × Bool). h.2) e
          ∙ ap (λ (xs : List String). not (is_nil xs)) (sym l)),
    )

module _ (g : ℕ) (b : BackendKind) (a : Answers) (files : Files) where
  -- After a run the lock is gone, or the step that gives it back is the last one and failed.
  pub run-lock : ((run_steps g b a files).files.lock ≡ none) ⊎ LeaveFailed (run g b a files).steps
  unfolding run run_steps finish_report
  run-lock = elim (Bool-cases (has_errors (prepare a (new_report_controller g b files)))) [
    | inl e ↦ rw e (leave_step-lock a _)
    | inr e ↦ rw e (leave_step-lock a _)
  ]

  run_steps-hooks : hooks_of (run_steps g b a files) ≡ (
      if prepare_fails a files
      then (stop_subsystems ∷ rescue_reset_core ∷ exec_rescue_reset ∷ [], [], false)
      else (
        stop_subsystems ∷ rescue_reset_core ∷ exec_rescue_reset ∷ clear_runtime_state
            ∷ verify_cleanup ∷ [],
        a.verify_cleanup,
        not (is_nil a.verify_cleanup),
      ))
  unfolding run_steps
  run_steps-hooks =
      let prepared = prepare a (new_report_controller g b files) in
      let p = new-prepare-hooks g b a files in
      elim (Bool-cases (prepare_fails a files)) [
        | inl e ↦ rw (prepare-errors g b a files, e) (leave-hooks a prepared ∙ p)
        | inr e ↦
            rw (prepare-errors g b a files, e)
              (leave-hooks a (clean a prepared)
                ∙ clean-hooks a prepared
                ∙ ap (clean_with a.verify_cleanup) p
                ∙ ap
                    (λ (x : Bool). (
                      stop_subsystems ∷ rescue_reset_core ∷ exec_rescue_reset ∷ clear_runtime_state
                          ∷ verify_cleanup ∷ [],
                      a.verify_cleanup,
                      x,
                    ))
                    (if_nil a.verify_cleanup))
      ]

  -- A run calls the hooks in this order, those of the cleanup exactly if none of the four first steps
  -- failed; the leftovers are those of the check after the cleanup, and a reboot is required exactly
  -- if there are some.
  pub run-hooks :
      ((run_steps g b a files).called
        ≡ stop_subsystems
          ∷ rescue_reset_core
          ∷ exec_rescue_reset
          ∷ (if prepare_fails a files then [] else clear_runtime_state ∷ verify_cleanup ∷ []))
      × ((run g b a files).leftovers ≡ (if prepare_fails a files then [] else a.verify_cleanup))
      × ((run g b a files).reboot_required ≡ not (is_nil (run g b a files).leftovers))
  unfolding run finish_report
  run-hooks =
      let h = run_steps-hooks in
      elim (Bool-cases (prepare_fails a files)) [
        | inl e ↦ rw e (final_hooks (run_steps g b a files) _ [] (h ∙ rw e refl))
        | inr e ↦ rw e (final_hooks (run_steps g b a files) _ a.verify_cleanup (h ∙ rw e refl))
      ]
