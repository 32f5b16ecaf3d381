-- ===== src/Update/Written.antt =====
-- What the file of the state holds (`InstallTracker.write` of install_state.go), through an installation.
use rknno_vpn.Prelude.{
  ℕ, ◌≡◌, refl, inl, inr, String, Bool, true, false, Option, none, some, if◌then◌else◌,
  Option-cases, arith, ◌+◌,
}
use rknno_vpn.Update.State.{
  Tracker, Clock, write_state, status_after, track_step, complete_install, InstallCall, sets_step,
  exits_self, removes_downloads,
}
use rknno_vpn.Update.Install.{
  InstallTransaction, Answers, InstallRun, and_then, stage, call, check, mark_step, stop_runtime,
  install_module, install_apk, clean_up, install_body, schedule_exit,
}

-- A file that was never written is not there, and one whose last write did not fail holds the state.
pub record InFile (w : Clock) (t : Tracker) : Type 0 where
  pub unwritten : t.writes ≡ 0 → t.file ≡ none
  pub kept : (n : ℕ) → t.writes ≡ n + 1 → w.write_error n ≡ none → t.file ≡ some t.state

module _ (w : Clock) where
  pub write_state-InFile : (t : Tracker) → InFile w (write_state w t).0
  unfolding write_state
  write_state-InFile t = elim (Option-cases (w.write_error t.writes)) [
    | inl e ↦
        rw (write_state, e)
          (record { unwritten = λ h. absurd (omega (arith, h)); kept = λ n h k. refl })
    | inr (x, e) ↦
        rw (write_state, e)
          (record {
            unwritten = λ h. absurd (omega (arith, h));
            kept = λ n h k.
                (let same : t.writes ≡ n = omega (arith, h) in absurd (cc (rw same at e, k)));
          })
  ]

  call-InFile : (c : InstallCall) (t : Tracker) → InFile w t → InFile w (call c t)
  call-InFile c t h = record { unwritten = h.unwritten; kept = h.kept }

  track_step-InFile :
      (name status code detail : String) (t : Tracker)
      → InFile w (track_step w name status code detail t)
  unfolding track_step
  track_step-InFile name status code detail t = write_state-InFile (record t {
    state = record t.state {
      step = name;
      step_status = status;
      code = code;
      detail = detail;
      status = status_after status t.state.status;
    };
  })

  complete_install-InFile : (t : Tracker) → InFile w (complete_install w t)
  unfolding complete_install
  complete_install-InFile t = write_state-InFile (record t {
    state = record t.state { status = "completed"; step_status = "ok"; code = ""; detail = "" };
  })

  if_InFile : (b : Bool) (x y : Tracker) → InFile w x → InFile w y → InFile w (if b then x else y)
  if_InFile true x y h k = h
  if_InFile false x y h k = k

  answer_InFile :
      {A : Type 0} (o : Option A) (f : A → InstallRun) (y : InstallRun)
      → ((x : A) → InFile w (f x).0)
      → InFile w y.0
      → InFile w (elim o as (λ x. InstallRun) [ none ↦ y | some x ↦ f x ]).0
  answer_InFile none f y h k = k
  answer_InFile (some x) f y h k = h x

  and_then-InFile :
      (run : InstallRun) (k : Tracker → InstallRun)
      → InFile w run.0
      → ((t : Tracker) → InFile w t → InFile w (k t).0)
      → InFile w (and_then run k).0
  and_then-InFile (t, none) k h f = f t h
  and_then-InFile (t, some e) k h f = h

  check-InFile : (answer : Option String) (t : Tracker) → InFile w t → InFile w (check answer t).0
  check-InFile none t h = h
  check-InFile (some e) t h = h

  stage-InFile :
      (on : Bool) (answer : Option String) (f : Tracker → InstallRun) (t : Tracker)
      → InFile w t
      → ((u : Tracker) → InFile w (f u).0)
      → InFile w (stage on answer f t).0
  stage-InFile true answer f t h k =
      and_then-InFile (check answer t) f (check-InFile answer t h) (λ u g. k u)
  stage-InFile false answer f t h k = h

  module _ (tx : InstallTransaction) (a : Answers) where
    mark_step-InFile :
        (name status code detail : String) (t : Tracker)
        → InFile w (mark_step w tx a name status code detail t)
    unfolding mark_step
    mark_step-InFile name status code detail t =
        track_step-InFile name status code detail
          (if tx.sets_operation_step then call (sets_step name status code detail) t else t)

    stop_runtime-InFile : (t : Tracker) → InFile w (stop_runtime w tx a t).0
    unfolding stop_runtime
    stop_runtime-InFile t =
        answer_InFile a.stop _ _
          (λ answer.
            answer_InFile answer _ _ (λ e. mark_step-InFile _ _ _ _ _) (mark_step-InFile _ _ _ _ _))
          (mark_step-InFile _ _ _ _ _)

    install_module-InFile : (t : Tracker) → InFile w (install_module w tx a t).0
    unfolding install_module
    install_module-InFile t =
        answer_InFile a.module_install _ _ (λ e. mark_step-InFile _ _ _ _ _)
          (mark_step-InFile _ _ _ _ _)

    install_apk-InFile : (t : Tracker) → InFile w (install_apk w tx a t).0
    unfolding install_apk
    install_apk-InFile t =
        answer_InFile a.apk_install _ _ (λ e. mark_step-InFile _ _ _ _ _)
          (mark_step-InFile _ _ _ _ _)

    clean_up-InFile : (t : Tracker) → InFile w (clean_up w tx a t).0
    unfolding clean_up
    clean_up-InFile t =
        answer_InFile a.removal _ _ (λ e. mark_step-InFile _ _ _ _ _)
          (complete_install-InFile (
            mark_step w tx a "update-cleanup-downloads" "ok" "" "" (
              call removes_downloads (
                mark_step w tx a "update-cleanup-downloads" "running" "UPDATE_CLEANUP" tx.update_dir
                  t))))

    -- The parts of the function from a stage on.
    abbrev clean_stage : Tracker → InstallRun
    clean_stage t = and_then (check a.before_cleanup t) (clean_up w tx a)

    abbrev apk_stage : Tracker → InstallRun
    apk_stage t = and_then (stage tx.apk_exists a.before_apk (install_apk w tx a) t) clean_stage

    abbrev module_stage : Tracker → InstallRun
    module_stage t =
        and_then (stage tx.module_exists a.before_module (install_module w tx a) t) apk_stage

    clean_stage-InFile : (t : Tracker) → InFile w t → InFile w (clean_stage t).0
    clean_stage-InFile t h =
        and_then-InFile (check a.before_cleanup t) (clean_up w tx a)
          (check-InFile a.before_cleanup t h) (λ u k. clean_up-InFile u)

    apk_stage-InFile : (t : Tracker) → InFile w t → InFile w (apk_stage t).0
    apk_stage-InFile t h =
        and_then-InFile (stage tx.apk_exists a.before_apk (install_apk w tx a) t) clean_stage
          (stage-InFile tx.apk_exists a.before_apk (install_apk w tx a) t h install_apk-InFile)
          clean_stage-InFile

    module_stage-InFile : (t : Tracker) → InFile w t → InFile w (module_stage t).0
    module_stage-InFile t h =
        and_then-InFile (stage tx.module_exists a.before_module (install_module w tx a) t) apk_stage
          (stage-InFile tx.module_exists a.before_module (install_module w tx a) t h
            install_module-InFile)
          apk_stage-InFile

    pub install_body-InFile : (t : Tracker) → InFile w t → InFile w (install_body w tx a t).0
    unfolding install_body
    install_body-InFile t h =
        and_then-InFile (stage tx.module_exists a.before_stop (stop_runtime w tx a) t) module_stage
          (stage-InFile tx.module_exists a.before_stop (stop_runtime w tx a) t h
            stop_runtime-InFile)
          module_stage-InFile

    pub schedule_exit-InFile : (t : Tracker) → InFile w t → InFile w (schedule_exit w tx a t)
    unfolding schedule_exit
    schedule_exit-InFile t h =
        if_InFile t.module_updated _ t
          (if_InFile tx.schedules_exit _ _ (call-InFile exits_self _ (mark_step-InFile _ _ _ _ _))
            (mark_step-InFile _ _ _ _ _))
          h
