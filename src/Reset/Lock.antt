-- ===== src/Reset/Lock.antt =====
-- The decisions that the reset lock and the marker files make (lock.go).
use rknno_vpn.Prelude.{
  ℕ, String, ◌-◌, Bool, true, false, Option, none, some, ltb, concat, if◌then◌else◌,
}
use rknno_vpn.Runtime.Types.{Time, OperationBusyError}
use rknno_vpn.Reset.Files.{Files, LockFile, whole_seconds}

-- `StaleAfter`: ten minutes, in nanoseconds.
abbrev pub stale_after : ℕ
stale_after = 600000000000

pub record LockInfo : Type 0 where
  pub active : Bool
  pub stale : Bool
  pub detail : String
  pub started_at : Time
  pub age : ℕ

-- An error of this file: the file system's, or the busy error.
pub data LockError : Type 0 where
  unreadable : String → LockError
  in_progress : OperationBusyError → LockError

abbrev pub no_lock : LockInfo
no_lock = record { active = false; stale = false; detail = ""; started_at = 0; age = 0 }

-- `NewResetInProgressError`.
unfoldable pub new_reset_in_progress_error : String → OperationBusyError
new_reset_in_progress_error String.[] = record {
  code = "RESET_IN_PROGRESS";
  detail = "reset is in progress";
  active = none;
}
new_reset_in_progress_error (String.◌∷◌ c detail) = record {
  code = "RESET_IN_PROGRESS";
  detail = String.◌∷◌ c detail;
  active = none;
}

-- The instant of a lock: the one that it holds, or else that of the last write.
abbrev pub started : LockFile → Time
started lock = elim lock.stamp [ none ↦ lock.mod_time | some stamp ↦ stamp ]

pub data Inspected : Type 0 where
  inspected : LockInfo → Inspected
  failed : LockError → Inspected

-- `InspectLock`. `stat` is the error of `os.Stat`, if it fails otherwise than by absence, and
-- `print` writes a duration as Go does. An age below 0 is 0, which `-` gives.
unfoldable pub inspect_lock : Option String → (ℕ → String) → Time → Files → Inspected
inspect_lock (some err) print now files =
    failed (unreadable (concat "reset lock is not readable: " err))
inspect_lock none print now files = elim files.lock [
  | none ↦ inspected no_lock
  | some lock ↦
      let age = now - started lock in
      inspected (record {
        active = true;
        stale = ltb stale_after age;
        detail = concat "reset lock is present for " (print (whole_seconds age));
        started_at = started lock;
        age = age;
      })
]

-- `StaleRecoveryDecision`, or an error.
pub data Recovery : Type 0 where
  no_cleanup : Recovery
  run_cleanup : String → Recovery
  blocked : LockError → Recovery

unfoldable pub decide_stale_recovery : Option String → (ℕ → String) → Time → Files → Recovery
unfolding inspect_lock new_reset_in_progress_error
decide_stale_recovery stat print now files = elim (inspect_lock stat print now files) [
  | failed err ↦ blocked err
  | inspected lock ↦
      if lock.active
      then (if lock.stale
          then run_cleanup lock.detail
          else blocked (in_progress (new_reset_in_progress_error "reset is in progress")))
      else no_cleanup
]

unfoldable pub fail_if_reset_in_progress :
    Option String → (ℕ → String) → Time → Files → Option LockError
unfolding inspect_lock new_reset_in_progress_error
fail_if_reset_in_progress stat print now files = elim (inspect_lock stat print now files) [
  | failed err ↦ some err
  | inspected lock ↦
      if lock.active
      then (if lock.stale
          then some (in_progress (new_reset_in_progress_error lock.detail))
          else some (in_progress (new_reset_in_progress_error "reset is in progress")))
      else none
]

-- `ShouldSkipRootReconcile`: the reason to skip. A lock or a flag that `os.Stat`
-- cannot read counts as absent; `stat` is the error of `os.Stat` on the marker, if it fails otherwise
-- than by absence.
unfoldable pub should_skip_root_reconcile : Option String → Files → Option String
should_skip_root_reconcile stat files = elim files.lock [
  | some _ ↦ some "reset lock is present"
  | none ↦ if files.manual_flag then some "manual mode is enabled" else elim stat [
    | some err ↦ some (concat "active marker is not readable: " err)
    | none ↦ if files.active_marker then none else some "runtime is not marked active"
  ]
]
