-- ===== src/Update/Outcome.antt =====
-- How an installation ends (`RunInstallTransaction` of install_transaction.go).
use rknno_vpn.Prelude.{
  ◌≡◌, refl, sym, ◌∙◌, inl, inr, String, Bool, true, false, ◌&&◌, List, [], ◌∷◌, ◌++◌, Option, none,
  some, if◌then◌else◌, Option-cases, arith,
}
use mathlib.Core.List.{append-nil}
use rknno_vpn.Update.State.{
  InstallState, InstallCall, sets_step, exits_self, Tracker, Clock, new_install_tracker,
  write_state, status_after, track_step,
}
use rknno_vpn.Update.Install.{
  cancelled, record_failed, InstallTransaction, Answers, InstallRun, call, mark_step, install_body,
  schedule_exit, run_install_transaction,
}
use rknno_vpn.Update.Steps.{actions, At, write_state-At, call-At, Post, mark_step-At}
use rknno_vpn.Update.Written.{InFile, write_state-InFile, install_body-InFile, schedule_exit-InFile}
use rknno_vpn.Update.Stages.{plan, install_body-Post}

-- What the record says after a restart is scheduled.
abbrev pub ShowsRestart : InstallState → Type 0
ShowsRestart s =
    (s.step ≡ "update-schedule-self-exit")
    × (s.step_status ≡ "ok")
    × (s.code ≡ "")
    × (s.detail ≡ "daemon restart scheduled")

track_step-shows :
    (w : Clock) (t : Tracker)
    → let next = track_step w "update-schedule-self-exit" "ok" "" "daemon restart scheduled" t in
      ShowsRestart next.state × (next.module_updated ≡ t.module_updated)
unfolding track_step write_state
track_step-shows w t = elim (Option-cases (w.write_error t.writes)) [
  | inl e ↦ rw (track_step, write_state, e) ((refl, refl, refl, refl), refl)
  | inr (x, e) ↦ rw (track_step, write_state, e) ((refl, refl, refl, refl), refl)
]

if_cases :
    (P : Tracker → Type 0) (b : Bool) (x y : Tracker)
    → (b ≡ true → P x)
    → (b ≡ false → P y)
    → P (if b then x else y)
if_cases P true x y h k = h refl
if_cases P false x y h k = k refl

answer_cases :
    (P : InstallRun → Type 0) (o : Option String) (f : String → InstallRun) (y : InstallRun)
    → ((x : String) → P (f x))
    → P y
    → P (elim o [ some x ↦ f x | none ↦ y ])
answer_cases P none f y h k = k
answer_cases P (some x) f y h k = h x

module _ (w : Clock) (tx : InstallTransaction) (a : Answers) where
  -- The restart of the daemon, if a module was installed.
  abbrev pub daemon_restart : Bool → List InstallCall
  daemon_restart module_in = if module_in && tx.schedules_exit then exits_self ∷ [] else []

  schedule_exit-At :
      (status : String) (mi ai : Bool) (done : List InstallCall) (t : Tracker)
      → status_after "ok" status ≡ status
      → At status mi ai done t
      → At status mi ai (done ++ daemon_restart mi) (schedule_exit w tx a t)
  unfolding schedule_exit actions
  schedule_exit-At status mi ai done t same h =
      let noted =
        mark_step-At w tx a "update-schedule-self-exit" "ok" "" "daemon restart scheduled" status mi
          ai done t h in
      let marked = rw same at noted in
      let goal : Tracker → Type 0 = At status mi ai (done ++ daemon_restart mi) in
      if_cases goal t.module_updated _ t
        (λ e.
          if_cases goal tx.schedules_exit _ _
            (λ f.
              rw (sym h.updated_is ∙ e, f)
                (call-At exits_self status _ ai done _ (rw (sym h.updated_is ∙ e) at marked)))
            (λ f. rw (sym h.updated_is ∙ e, f, append-nil) (rw (sym h.updated_is ∙ e) at marked)))
        (λ e. rw (sym h.updated_is ∙ e, append-nil) (rw (sym h.updated_is ∙ e) at h))

  finish-plan :
      (run : InstallRun)
      → Post (At "completed" tx.module_exists tx.apk_exists (plan w tx a)) run
      → run.1 ≡ none
      → At "completed" tx.module_exists tx.apk_exists
          (plan w tx a ++ daemon_restart tx.module_exists)
          (schedule_exit w tx a run.0)
  unfolding status_after
  finish-plan (t, none) h e =
      schedule_exit-At "completed" tx.module_exists tx.apk_exists (plan w tx a) t refl h
  finish-plan (t, some x) h e = absurd (cc e)

  schedule_exit-shows :
      (t : Tracker)
      → (schedule_exit w tx a t).module_updated ≡ true
      → ShowsRestart (schedule_exit w tx a t).state
  unfolding schedule_exit mark_step
  schedule_exit-shows t =
      let goal : Tracker → Type 0 = λ next. next.module_updated ≡ true → ShowsRestart next.state in
      let c = sets_step "update-schedule-self-exit" "ok" "" "daemon restart scheduled" in
      let before : Tracker = if tx.sets_operation_step then call c t else t in
      let noted = (track_step-shows w before).0 in
      if_cases goal t.module_updated _ t
        (λ e. if_cases goal tx.schedules_exit _ _ (λ f g. noted) (λ f g. noted))
        (λ e g. absurd (cc (e, g)))

  abbrev begun : Tracker × Option String
  begun = write_state w (new_install_tracker w tx.generation tx.module_path tx.apk_path)

  begun-At : At "running" false false [] begun.0
  unfolding actions
  begun-At =
      write_state-At w "running" false false []
        (new_install_tracker w tx.generation tx.module_path tx.apk_path)
        (record {
          status_is = refl;
          module_is = refl;
          updated_is = refl;
          apk_is = refl;
          actions_are = refl;
        })

  abbrev finished : InstallRun
  finished = (schedule_exit w tx a (install_body w tx a begun.0).0, (install_body w tx a begun.0).1)

  -- The three ends: before the first write, at it, and behind it.
  run_cases :
      (P : InstallRun → Type 0)
      → ((x : String)
          → P (new_install_tracker w tx.generation tx.module_path tx.apk_path, some (cancelled x)))
      → ((x : String) → P (begun.0, some (record_failed x)))
      → P finished
      → P (run_install_transaction w tx a)
  unfolding run_install_transaction
  run_cases P h k l =
      answer_cases P a.at_start
        (λ x. (new_install_tracker w tx.generation tx.module_path tx.apk_path, some (cancelled x)))
        _ h (answer_cases P begun.1 (λ x. (begun.0, some (record_failed x))) finished k l)

  begun-InFile : InFile w begun.0
  begun-InFile =
      write_state-InFile w (new_install_tracker w tx.generation tx.module_path tx.apk_path)

  run-InFile : InFile w (run_install_transaction w tx a).0
  run-InFile =
      run_cases (λ run. InFile w run.0)
        (λ x. record { unwritten = λ h. refl; kept = λ n h k. absurd (omega (arith, h)) })
        (λ x. begun-InFile)
        (schedule_exit-InFile w tx a (install_body w tx a begun.0).0
          (install_body-InFile w tx a begun.0 begun-InFile))

  body-Post :
      Post
        (At "completed" tx.module_exists tx.apk_exists (plan w tx a))
        (install_body w tx a begun.0)
  body-Post = install_body-Post w tx a begun.0 begun-At

  run-plan :
      (run_install_transaction w tx a).1 ≡ none
      → At "completed" tx.module_exists tx.apk_exists
          (plan w tx a ++ daemon_restart tx.module_exists)
          (run_install_transaction w tx a).0
  run-plan =
      run_cases
        (λ run.
          run.1 ≡ none
          → At "completed" tx.module_exists tx.apk_exists
              (plan w tx a ++ daemon_restart tx.module_exists) run.0)
        (λ x h. absurd (cc h)) (λ x h. absurd (cc h))
        (finish-plan (install_body w tx a begun.0) body-Post)

  -- An installation that returns no error has completed: what it was to install is marked as installed in
  -- its state, which the file holds where its last write did not fail, and it did in this order what the
  -- parts at hand ask for: stop the runtime, install the module, install the APK, remove the downloads,
  -- restart.
  pub run_install_transaction-plan :
      (run_install_transaction w tx a).1 ≡ none
      → At "completed" tx.module_exists tx.apk_exists
          (plan w tx a ++ daemon_restart tx.module_exists)
          (run_install_transaction w tx a).0
        × InFile w (run_install_transaction w tx a).0
  run_install_transaction-plan e = (run-plan e, run-InFile)

  run-shows :
      (run_install_transaction w tx a).0.module_updated ≡ true
      → ShowsRestart (run_install_transaction w tx a).0.state
  run-shows =
      run_cases (λ run. run.0.module_updated ≡ true → ShowsRestart run.0.state)
        (λ x h. absurd (cc h)) (λ x h. absurd (let k = begun-At.updated_is in cc (h, k)))
        (schedule_exit-shows (install_body w tx a begun.0).0)

  -- Where the daemon is to restart, the last step of the state is the restart without a code, also where
  -- an error came after the module was installed; the file holds this state where its last write did not
  -- fail.
  pub run_install_transaction-shows :
      (run_install_transaction w tx a).0.module_updated ≡ true
      → ShowsRestart (run_install_transaction w tx a).0.state
        × InFile w (run_install_transaction w tx a).0
  run_install_transaction-shows e = (run-shows e, run-InFile)
