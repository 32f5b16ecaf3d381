-- ===== src/Update/Downloaded.antt =====
-- How a download ends (`RunDownloadTransaction` of download_transaction.go).
use rknno_vpn.Prelude.{◌≡◌, ◌⊎◌, String, none, some}
use rknno_vpn.Update.State.{InstallState, Clock}
use rknno_vpn.Update.Download.{
  DownloadError, cancelled, record_failed, check_failed, download_failed, verify_failed,
  no_update_available, DownloadAnswer, downloaded, undone, DownloadAnswers, DownloadRun, step,
}

-- What a failure records.
abbrev pub Records : String → String → String → InstallState → Type 0
Records name code detail s =
    (s.status ≡ "failed")
    × (s.step ≡ name)
    × (s.step_status ≡ "failed")
    × (s.code ≡ code)
    × (s.detail ≡ detail)

-- An operation that neither failed nor ended, by its record.
abbrev pub IsOpen : InstallState → Type 0
IsOpen s = (s.status ≡ "downloading") ⊎ (s.status ≡ "running")

-- What is recorded where a download ends with an error.
abbrev pub RecordsError : DownloadError → InstallState → Type 0
RecordsError (cancelled e) s = IsOpen s
RecordsError (record_failed e) s = IsOpen s ⊎ (s.status ≡ "downloaded")
RecordsError (check_failed e) s = Records "update-check" "UPDATE_CHECK_FAILED" e s
RecordsError no_update_available s =
    Records "update-check" "UPDATE_NOT_AVAILABLE" "no update available" s
RecordsError (download_failed e) s = Records "update-download" "UPDATE_DOWNLOAD_FAILED" e s
RecordsError (verify_failed e) s = Records "update-verify" "UPDATE_VERIFY_FAILED" e s

pub record Ends (Q : InstallState → Type 0) (run : DownloadRun) : Type 0 where
  pub holds : elim run.1 as (λ x. Type 0) [
    | none ↦ Q run.0.state
    | some e ↦ RecordsError e run.0.state
  ]

module _ (w : Clock) where
  -- What a download that succeeded records.
  abbrev pub IsDownloaded : String → String → InstallState → Type 0
  IsDownloaded module_path apk_path s =
      (s.status ≡ "downloaded") × (s.module_path ≡ module_path) × (s.apk_path ≡ apk_path)

  module _ (a : DownloadAnswers) where
    -- What a download that ends without an error records, by what the download gave.
    abbrev pub IsKept : DownloadAnswer → InstallState → Type 0
    IsKept (undone e) s = ⊥
    IsKept (downloaded module_path apk_path) s = IsDownloaded module_path apk_path s
