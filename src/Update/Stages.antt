-- ===== src/Update/Stages.antt =====
-- What the stages of an installation do (install_transaction.go).
use rknno_vpn.Prelude.{
  refl, inl, inr, Bool, true, false, ◌&&◌, List, [], ◌∷◌, ◌++◌, none, some, if◌then◌else◌,
  Bool-cases, Option-cases,
}
use mathlib.Core.List.{append-nil}
use rknno_vpn.Update.State.{
  InstallCall, stops_runtime, restores_runtime, installs_module, installs_apk, removes_downloads,
  Tracker, Clock, status_after, mark_apk_installed, mark_module_installed, complete_install,
}
use rknno_vpn.Update.Install.{
  module_failed, apk_failed, cleanup_failed, runtime_stop_failed, InstallTransaction, Answers,
  InstallRun, and_then, stage, call, check, mark_step, stop_runtime, install_module, install_apk,
  clean_up, install_body,
}
use rknno_vpn.Update.Steps.{
  actions, At, write_state-At, call-At, final_status, Post, and_then-Post, stage-Post, At-Ends,
  check-Post, mark_step-At,
}

module _ (w : Clock) (tx : InstallTransaction) (a : Answers) where
  -- The actions of the stop that succeeds.
  unfoldable pub stops : List InstallCall
  stops = elim a.stop [ none ↦ [] | some answer ↦ stops_runtime ∷ [] ]

  stop_runtime-Post :
      (t : Tracker)
      → At "running" false false [] t
      → Post (At "running" false false stops) (stop_runtime w tx a t)
  unfolding stop_runtime stops final_status status_after actions
  stop_runtime-Post t h =
      let started =
        mark_step-At w tx a "update-stop-runtime" "running" "UPDATE_STOP_RUNTIME"
          "stopping runtime before module install" "running" false false [] t h in
      let called = call-At stops_runtime "running" false false [] _ started in
      elim (Option-cases a.stop) [
        | inl e ↦
            rw (stop_runtime, stops, e)
              (mark_step-At w tx a _ "ok" _ _ "running" false false [] _ started)
        | inr (none, e) ↦
            rw (stop_runtime, stops, e)
              (mark_step-At w tx a _ "ok" _ _ "running" false false _ _ called)
        | inr (some x, e) ↦
            rw (stop_runtime, stops, e)
              (At-Ends (runtime_stop_failed x) "failed" false false _ _
                (mark_step-At w tx a _ "failed" _ _ "running" false false _ _ called) refl)
      ]

  install_module-Post :
      (done : List InstallCall) (t : Tracker)
      → At "running" false false done t
      → Post (At "running" true false (done ++ installs_module ∷ [])) (install_module w tx a t)
  unfolding install_module mark_module_installed final_status status_after actions
  install_module-Post done t h =
      let started =
        mark_step-At w tx a "update-install-module" "running" "MODULE_INSTALLING" tx.module_base
          "running" false false done t h in
      let called = call-At installs_module "running" false false done _ started in
      elim (Option-cases a.module_install) [
        | inl e ↦
            rw (install_module, e)
              (mark_step-At w tx a _ "ok" _ _ "running" true false _ _ (
                write_state-At w "running" true false _
                  (let before : Tracker = call installs_module (
                      mark_step w tx a "update-install-module" "running" "MODULE_INSTALLING"
                        tx.module_base t) in
                    record before {
                      module_updated = true;
                      state = record before.state { module_installed = true };
                    })
                  (record {
                    status_is = called.status_is;
                    module_is = refl;
                    updated_is = refl;
                    apk_is = called.apk_is;
                    actions_are = called.actions_are;
                  })))
        | inr (x, e) ↦ elim (Bool-cases (tx.was_runtime_running && tx.restores)) [
          | inl f ↦
              rw (install_module, e, f)
                (let restored = call-At restores_runtime "running" false false _ _ called in
                  At-Ends (module_failed x) "failed" false false _ _
                    (mark_step-At w tx a _ "failed" _ _ "running" false false _ _ restored) refl)
          | inr f ↦
              rw (install_module, e, f)
                (At-Ends (module_failed x) "failed" false false _ _
                  (mark_step-At w tx a _ "failed" _ _ "running" false false _ _ called) refl)
        ]
      ]

  install_apk-Post :
      (mi : Bool) (done : List InstallCall) (t : Tracker)
      → At "running" mi false done t
      → Post (At "running" mi true (done ++ installs_apk ∷ [])) (install_apk w tx a t)
  unfolding install_apk mark_apk_installed final_status status_after actions
  install_apk-Post mi done t h =
      let started =
        mark_step-At w tx a "update-install-apk" "running" "APK_INSTALLING" tx.apk_base "running" mi
          false done t h in
      let called = call-At installs_apk "running" mi false done _ started in
      elim (Option-cases a.apk_install) [
        | inl e ↦
            rw (install_apk, e)
              (mark_step-At w tx a _ "ok" _ _ "running" mi true _ _ (
                write_state-At w "running" mi true _
                  (let before : Tracker = call installs_apk (
                      mark_step w tx a "update-install-apk" "running" "APK_INSTALLING" tx.apk_base
                        t) in
                    record before { state = record before.state { apk_installed = true } })
                  (record {
                    status_is = called.status_is;
                    module_is = called.module_is;
                    updated_is = called.updated_is;
                    apk_is = refl;
                    actions_are = called.actions_are;
                  })))
        | inr (x, e) ↦
            rw (install_apk, e)
              (At-Ends (apk_failed x) "failed" mi false _ _
                (mark_step-At w tx a _ "failed" _ _ "running" mi false _ _ called) refl)
      ]

  clean_up-Post :
      (mi ai : Bool) (done : List InstallCall) (t : Tracker)
      → At "running" mi ai done t
      → Post (At "completed" mi ai (done ++ removes_downloads ∷ [])) (clean_up w tx a t)
  unfolding clean_up complete_install final_status status_after actions
  clean_up-Post mi ai done t h =
      let started =
        mark_step-At w tx a "update-cleanup-downloads" "running" "UPDATE_CLEANUP" tx.update_dir
          "running" mi ai done t h in
      let called = call-At removes_downloads "running" mi ai done _ started in
      elim (Option-cases a.removal) [
        | inl e ↦
            rw (clean_up, e)
              (let marked =
                  mark_step-At w tx a "update-cleanup-downloads" "ok" "" "" "running" mi ai _ _
                    called in
                write_state-At w "completed" mi ai _
                  (let before : Tracker = mark_step w tx a "update-cleanup-downloads" "ok" "" "" (
                      call removes_downloads (
                        mark_step w tx a "update-cleanup-downloads" "running" "UPDATE_CLEANUP"
                          tx.update_dir t)) in
                    record before {
                      state = record before.state {
                        status = "completed";
                        step_status = "ok";
                        code = "";
                        detail = "";
                      };
                    })
                  (record {
                    status_is = refl;
                    module_is = marked.module_is;
                    updated_is = marked.updated_is;
                    apk_is = marked.apk_is;
                    actions_are = marked.actions_are;
                  }))
        | inr (x, e) ↦
            rw (clean_up, e)
              (At-Ends (cleanup_failed x) "failed" mi ai _ _
                (mark_step-At w tx a _ "failed" _ _ "running" mi ai _ _ called) refl)
      ]

  -- The actions of an installation that succeeds, but for the restart of the daemon.
  unfoldable pub plan : List InstallCall
  unfolding stops
  plan =
      ((if tx.module_exists then stops ++ installs_module ∷ [] else [])
        ++ (if tx.apk_exists then installs_apk ∷ [] else []))
      ++ removes_downloads ∷ []

  pub install_body-Post :
      (t : Tracker)
      → At "running" false false [] t
      → Post (At "completed" tx.module_exists tx.apk_exists plan) (install_body w tx a t)
  unfolding install_body plan
  install_body-Post t h =
      let me = tx.module_exists in
      let stopped : Bool → Tracker → Type 0 =
        λ on. At "running" false false (if on then stops else []) in
      let with_module : Bool → Tracker → Type 0 =
        λ on. At "running" on false (if on then stops ++ installs_module ∷ [] else []) in
      let d2 : List InstallCall = if me then stops ++ installs_module ∷ [] else [] in
      let with_apk : Bool → Tracker → Type 0 =
        λ on. At "running" me on (d2 ++ (if on then installs_apk ∷ [] else [])) in
      let end = At "completed" me tx.apk_exists plan in
      let last : Tracker → InstallRun =
        λ t3. and_then (check a.before_cleanup t3) (clean_up w tx a) in
      let late : Tracker → InstallRun =
        λ t2. and_then (stage tx.apk_exists a.before_apk (install_apk w tx a) t2) last in
      let mid : Tracker → InstallRun =
        λ t1. and_then (stage me a.before_module (install_module w tx a) t1) late in
      and_then-Post (stopped me) end (stage me a.before_stop (stop_runtime w tx a) t) mid
        (stage-Post me a.before_stop (stop_runtime w tx a) (λ _. At "running" false false [])
          stopped t h (check-Post a.before_stop false false []) stop_runtime-Post (λ u k. k))
        (λ t1 h1.
          and_then-Post (with_module me) end (stage me a.before_module (install_module w tx a) t1)
            late
            (stage-Post me a.before_module (install_module w tx a) stopped with_module t1 h1
              (check-Post a.before_module false false stops) (install_module-Post stops) (λ u k. k))
            (λ t2 h2.
              and_then-Post (with_apk tx.apk_exists) end
                (stage tx.apk_exists a.before_apk (install_apk w tx a) t2) last
                (stage-Post tx.apk_exists a.before_apk (install_apk w tx a)
                  (λ _. At "running" me false d2) with_apk t2 h2
                  (check-Post a.before_apk me false d2) (install_apk-Post me d2)
                  (λ u k. rw append-nil k))
                (λ t3 h3.
                  and_then-Post (with_apk tx.apk_exists) end (check a.before_cleanup t3)
                    (clean_up w tx a) (check-Post a.before_cleanup me tx.apk_exists _ t3 h3)
                    (clean_up-Post me tx.apk_exists _))))
