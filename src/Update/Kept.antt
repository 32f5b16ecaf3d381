-- ===== src/Update/Kept.antt =====
-- What the file of the state holds at the end of a download (download_transaction.go).
use rknno_vpn.Prelude.{
  ℕ, refl, String, true, false, List, [], ◌∷◌, Option, none, some, arith, concat, decimal,
}
use rknno_vpn.Update.State.{Tracker, Clock, new_download_tracker, write_state, complete_download}
use rknno_vpn.Update.Download.{
  DownloadError, CheckAnswer, answered, unanswered, DownloadAnswer, downloaded, undone,
  DownloadAnswers, DownloadRun, and_go, unless_cancelled, unless_unwritten, stepped, step,
  fail_step, report_progress, check_release, verify_artifacts, keep_download, take_download,
  run_download_transaction,
}
use rknno_vpn.Update.Written.{InFile, write_state-InFile}

module _ (w : Clock) where
  record Kept (run : DownloadRun) : Type 0 where
    pub holds : InFile w run.0

  and_go-Kept :
      (run : DownloadRun) (k : Tracker → DownloadRun)
      → Kept run
      → ((t : Tracker) → InFile w t → Kept (k t))
      → Kept (and_go run k)
  and_go-Kept (t, none) k h f = f t h.holds
  and_go-Kept (t, some e) k h f = record { holds = h.holds }

  unless_cancelled-Kept :
      (answer : Option String) (t : Tracker) → InFile w t → Kept (unless_cancelled answer t)
  unless_cancelled-Kept none t h = record { holds = h }
  unless_cancelled-Kept (some e) t h = record { holds = h }

  unless_unwritten-Kept :
      (out : Tracker × Option String) → InFile w out.0 → Kept (unless_unwritten out)
  unless_unwritten-Kept (t, none) h = record { holds = h }
  unless_unwritten-Kept (t, some e) h = record { holds = h }

  new-InFile : InFile w (new_download_tracker w)
  unfolding new_download_tracker
  new-InFile = record { unwritten = λ h. refl; kept = λ n h k. absurd (omega (arith, h)) }

  step-InFile :
      (name status code detail : String) (t : Tracker)
      → InFile w (step w name status code detail t).0
  unfolding step
  step-InFile name status code detail t = write_state-InFile w (stepped name status code detail t)

  stepped-Kept :
      (name status code detail : String) (t : Tracker)
      → Kept (unless_unwritten (step w name status code detail t))
  stepped-Kept name status code detail t =
      unless_unwritten-Kept (step w name status code detail t)
        (step-InFile name status code detail t)

  fail_step-Kept :
      (name code detail : String) (e : DownloadError) (t : Tracker)
      → Kept (fail_step w name code detail e t)
  unfolding fail_step
  fail_step-Kept name code detail e t = record { holds = step-InFile name "failed" code detail t }

  report_progress-InFile :
      (progress : List (ℕ × ℕ)) (t : Tracker) → InFile w t → InFile w (report_progress w progress t)
  unfolding report_progress
  report_progress-InFile [] t h = h
  report_progress-InFile ((d, n) ∷ rest) t h =
      report_progress-InFile rest
        (step w "update-download" "running" "UPDATE_DOWNLOADING"
          (concat (decimal d) (concat "/" (decimal n))) t).0
        (step-InFile "update-download" "running" "UPDATE_DOWNLOADING"
          (concat (decimal d) (concat "/" (decimal n))) t)

  check_release-Kept : (c : CheckAnswer) (t : Tracker) → Kept (check_release w c t)
  check_release-Kept (unanswered e) t = fail_step-Kept _ _ _ _ t
  check_release-Kept (answered latest false) t = fail_step-Kept _ _ _ _ t
  check_release-Kept (answered latest true) t = stepped-Kept _ _ _ _ t

  verify_artifacts-Kept :
      (answer : Option String) (t : Tracker) → Kept (verify_artifacts w answer t)
  verify_artifacts-Kept none t = stepped-Kept _ _ _ _ t
  verify_artifacts-Kept (some e) t = fail_step-Kept _ _ _ _ t

  complete_download-InFile :
      (paths : String × String) (t : Tracker) → InFile w (complete_download w (some paths) t).0
  unfolding complete_download
  complete_download-InFile paths t = write_state-InFile w (record t {
    state = record t.state {
      status = "downloaded";
      step = "persist-artifacts";
      step_status = "ok";
      code = "";
      detail = "";
      module_path = paths.0;
      apk_path = paths.1;
    };
  })

  module _ (a : DownloadAnswers) where
    keep_download-Kept :
        (module_path apk_path : String) (t : Tracker)
        → InFile w t
        → Kept (keep_download w a module_path apk_path t)
    unfolding keep_download
    keep_download-Kept module_path apk_path t h =
        and_go-Kept (unless_cancelled a.after_download t) _
          (unless_cancelled-Kept a.after_download t h)
          λ t1 h1.
            and_go-Kept _ _
              (stepped-Kept "update-verify" "running" "UPDATE_VERIFYING"
                "verifying downloaded artifacts" t1)
              λ t2 h2.
                and_go-Kept (verify_artifacts w a.verification t2) _
                  (verify_artifacts-Kept a.verification t2)
                  λ t3 h3.
                    and_go-Kept (unless_cancelled a.before_complete t3) _
                      (unless_cancelled-Kept a.before_complete t3 h3)
                      λ t4 h4.
                        unless_unwritten-Kept
                          (complete_download w (some (module_path, apk_path)) t4)
                          (complete_download-InFile (module_path, apk_path) t4)

    take_download-Kept :
        (answer : DownloadAnswer) (t : Tracker) → InFile w t → Kept (take_download w a answer t)
    take_download-Kept (undone e) t h = fail_step-Kept _ _ _ _ t
    take_download-Kept (downloaded module_path apk_path) t h =
        keep_download-Kept module_path apk_path t h

    run-Kept : Kept (run_download_transaction w a)
    unfolding run_download_transaction
    run-Kept =
        and_go-Kept (unless_cancelled a.at_start (new_download_tracker w)) _
          (unless_cancelled-Kept a.at_start (new_download_tracker w) new-InFile)
          λ t h.
            and_go-Kept (unless_unwritten (write_state w t)) _
              (unless_unwritten-Kept (write_state w t) (write_state-InFile w t))
              λ t1 h1.
                and_go-Kept (unless_cancelled a.before_check t1) _
                  (unless_cancelled-Kept a.before_check t1 h1)
                  λ t2 h2.
                    and_go-Kept _ _
                      (stepped-Kept "update-check" "running" "UPDATE_CHECKING"
                        "checking latest release" t2)
                      λ t3 h3.
                        and_go-Kept (check_release w a.checking t3) _
                          (check_release-Kept a.checking t3)
                          λ t4 h4.
                            take_download-Kept a.download (report_progress w a.progress t4)
                              (report_progress-InFile a.progress t4 h4)

    pub run_download_transaction-InFile : InFile w (run_download_transaction w a).0
    run_download_transaction-InFile = run-Kept.holds
