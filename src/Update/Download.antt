-- ===== src/Update/Download.antt =====
-- The download of an update with the state that it records (`RunDownloadTransaction` of
-- download_transaction.go). What the context, the check, the download and its verification answer is
-- an argument; the logs are left out, and so is the caller that is told of the progress.
use rknno_vpn.Prelude.{
  ℕ, String, Bool, true, false, List, [], ◌∷◌, Option, none, some, concat, decimal,
}
use rknno_vpn.Update.State.{
  Tracker, Clock, new_download_tracker, write_state, status_after, complete_download,
}

pub data DownloadError : Type 0 where
  cancelled record_failed check_failed download_failed verify_failed : String → DownloadError
  no_update_available : DownloadError

-- The latest version, and whether it is an update; the error of the check.
pub data CheckAnswer : Type 0 where
  answered : String → Bool → CheckAnswer
  unanswered : String → CheckAnswer

-- The paths of the module and of the APK, or the error of the download.
pub data DownloadAnswer : Type 0 where
  downloaded : String → String → DownloadAnswer
  undone : String → DownloadAnswer

pub record DownloadAnswers : Type 0 where
  pub at_start : Option String
  pub before_check : Option String
  pub after_download : Option String
  pub before_complete : Option String
  pub checking : CheckAnswer
  pub progress : List (ℕ × ℕ)
  pub download : DownloadAnswer
  pub verification : Option String

abbrev pub DownloadRun : Type 0
DownloadRun = Tracker × Option DownloadError

abbrev pub and_go : DownloadRun → (Tracker → DownloadRun) → DownloadRun
and_go (t, none) k = k t
and_go (t, some e) k = (t, some e)

abbrev pub unless_cancelled : Option String → Tracker → DownloadRun
unless_cancelled none t = (t, none)
unless_cancelled (some e) t = (t, some (cancelled e))

-- The error of a write ends the function.
abbrev pub unless_unwritten : Tracker × Option String → DownloadRun
unless_unwritten (t, none) = (t, none)
unless_unwritten (t, some e) = (t, some (record_failed e))

-- The state that `Step` writes.
unfoldable pub stepped : String → String → String → String → Tracker → Tracker
unfolding status_after
stepped name step_status code detail t = record t {
  state = record t.state {
    step = name;
    step_status = step_status;
    code = code;
    detail = detail;
    status = status_after step_status t.state.status;
  };
}

module _ (w : Clock) where
  -- `Step` with its error.
  unfoldable pub step : String → String → String → String → Tracker → Tracker × Option String
  unfolding write_state stepped
  step name step_status code detail t = write_state w (stepped name step_status code detail t)

  -- A step that failed, whose error is dropped, and the error of the function.
  unfoldable pub fail_step : String → String → String → DownloadError → Tracker → DownloadRun
  unfolding step
  fail_step name code detail e t = ((step name "failed" code detail t).0, some e)

  unfoldable pub report_progress : List (ℕ × ℕ) → Tracker → Tracker
  unfolding step
  report_progress [] t = t
  report_progress ((done, total) ∷ rest) t =
      report_progress rest
        (step "update-download" "running" "UPDATE_DOWNLOADING"
          (concat (decimal done) (concat "/" (decimal total))) t).0

  abbrev pub check_release : CheckAnswer → Tracker → DownloadRun
  check_release (unanswered e) t =
      fail_step "update-check" "UPDATE_CHECK_FAILED" e (check_failed e) t
  check_release (answered latest false) t =
      fail_step "update-check" "UPDATE_NOT_AVAILABLE" "no update available" no_update_available t
  check_release (answered latest true) t =
      unless_unwritten (step "update-download" "running" "UPDATE_DOWNLOADING" latest t)

  abbrev pub verify_artifacts : Option String → Tracker → DownloadRun
  verify_artifacts none t = unless_unwritten (
      step "persist-artifacts" "running" "UPDATE_PERSISTING" "persisting verified artifact state" t)
  verify_artifacts (some e) t =
      fail_step "update-verify" "UPDATE_VERIFY_FAILED" e (verify_failed e) t

  module _ (a : DownloadAnswers) where
    -- The part behind a download that succeeded.
    unfoldable pub keep_download : String → String → Tracker → DownloadRun
    unfolding step fail_step complete_download
    keep_download module_path apk_path t = and_go (unless_cancelled a.after_download t) (λ t1.
        and_go
          (unless_unwritten
            (step "update-verify" "running" "UPDATE_VERIFYING" "verifying downloaded artifacts" t1))
          (λ t2. and_go (verify_artifacts a.verification t2) (λ t3.
            and_go (unless_cancelled a.before_complete t3)
              (λ t4. unless_unwritten (complete_download w (some (module_path, apk_path)) t4)))))

    abbrev pub take_download : DownloadAnswer → Tracker → DownloadRun
    take_download (undone e) t =
        fail_step "update-download" "UPDATE_DOWNLOAD_FAILED" e (download_failed e) t
    take_download (downloaded module_path apk_path) t = keep_download module_path apk_path t

    -- A context that is done before the start leaves no file.
    unfoldable pub run_download_transaction : DownloadRun
    unfolding new_download_tracker write_state step fail_step report_progress keep_download
    run_download_transaction = and_go (unless_cancelled a.at_start (new_download_tracker w)) (λ t.
        and_go (unless_unwritten (write_state w t)) (λ t1.
          and_go (unless_cancelled a.before_check t1) (λ t2.
            and_go
              (unless_unwritten
                (step "update-check" "running" "UPDATE_CHECKING" "checking latest release" t2))
              (λ t3.
                and_go (check_release a.checking t3)
                  (λ t4. take_download a.download (report_progress a.progress t4))))))
