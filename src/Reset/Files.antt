-- ===== src/Reset/Files.antt =====
-- The files of the reset mode (mode.go). What the file system answers is an argument: a fault
-- carries the error's message, and a removal of a file that is not there is no fault.
use rknno_vpn.Prelude.{
  ℕ, ◌-◌, ◌%◌, String, Bool, true, false, List, [], ◌∷◌, Option, none, some, concat, join, is_nil,
  is_some, if◌then◌else◌,
}
use rknno_vpn.Runtime.Types.{Time}

-- The lock: when it was written last, and the instant that its text holds, if it parses.
pub record LockFile : Type 0 where
  pub mod_time : Time
  pub stamp : Option Time

pub record Files : Type 0 where
  pub lock : Option LockFile
  pub active_marker : Bool
  pub manual_flag : Bool

-- The faults of the calls of `EnterResetMode` and `LeaveResetMode`, in their order. A write that
-- fails leaves the file that comes with its fault.
pub record Faults : Type 0 where
  pub mkdir_run : Option String
  pub mkdir_config : Option String
  pub write_lock : Option (String × Option LockFile)
  pub remove_marker : Option String
  pub write_manual : Option (String × Bool)
  pub remove_lock : Option String

-- An instant or a duration in nanoseconds, cut to seconds as by RFC 3339 and `Truncate`.
abbrev pub whole_seconds : ℕ → ℕ
whole_seconds t = t - t % 1000000000

-- `EnterResetMode`: the files after it, and its error. The text of the lock is
-- the second of `now`.
unfoldable pub enter_reset_mode : Faults → Time → Files → Files × Option String
enter_reset_mode faults now files = elim faults.mkdir_run [
  | some err ↦ (files, some err)
  | none ↦ elim faults.mkdir_config [
    | some err ↦ (files, some err)
    | none ↦ elim faults.write_lock [
      | some (err, left) ↦ (record files { lock = left }, some err)
      | none ↦
          let locked = record files {
            lock = some (record { mod_time = now; stamp = some (whole_seconds now) });
          } in
          let unmarked =
            if is_some faults.remove_marker
            then locked
            else record locked { active_marker = false } in
          elim faults.write_manual [
            | some (err, left) ↦ (record unmarked { manual_flag = left }, some err)
            | none ↦ (record unmarked { manual_flag = true }, none)
          ]
    ]
  ]
]

unfoldable pub leave_reset_mode : Faults → Files → Files × Option String
leave_reset_mode faults files = elim files.lock [
  | none ↦ (files, none)
  | some _ ↦ elim faults.remove_lock [
    | some err ↦ (files, some err)
    | none ↦ (record files { lock = none }, none)
  ]
]

-- What `os.Remove` says of one stale file.
pub data Removal : Type 0 where
  removed not_there : Removal
  refused : String → Removal

-- The loop of `RemoveStaleRuntimeFiles`: the base names removed, and the messages.
unfoldable pub remove_stale : List (String × Removal) → List String × List String
remove_stale [] = ([], [])
remove_stale ((base, removed) ∷ files) =
    let (names, errs) = remove_stale files in (base ∷ names, errs)
remove_stale ((base, not_there) ∷ files) = remove_stale files
remove_stale ((base, refused err) ∷ files) =
    let (names, errs) = remove_stale files in (names, concat base (concat ": " err) ∷ errs)

unfoldable pub remove_stale_runtime_files : List (String × Removal) → List String × Option String
unfolding remove_stale
remove_stale_runtime_files files =
    let (names, errs) = remove_stale files in
    (names, if is_nil errs then none else some (join "; " errs))
