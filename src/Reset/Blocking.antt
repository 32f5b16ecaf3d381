-- ===== src/Reset/Blocking.antt =====
-- Who is let through while a reset holds its lock (mode.go, lock.go).
use rknno_vpn.Prelude.{
  ℕ, String, concat, ◌-◌, ◌+◌, ◌<◌, ◌≤◌, true, ◌≡◌, ◌⊎◌, ◌↔◌, none, some, is_some, arith,
}
use rknno_vpn.Runtime.Types.{Time}
use rknno_vpn.Reset.Files.{Files, Faults, enter_reset_mode, whole_seconds}
use rknno_vpn.Reset.Lock.{
  stale_after, in_progress, no_cleanup, run_cleanup, blocked, inspect_lock, decide_stale_recovery,
  fail_if_reset_in_progress, new_reset_in_progress_error,
}

-- With a lock file that can be read, a runtime operation is let through exactly if there is no lock,
-- and so is a start of the daemon, without a recovery.
pub lock_decisions :
    (print : ℕ → String) (now : Time) (files : Files)
    → ((fail_if_reset_in_progress none print now files ≡ none) ↔ (files.lock ≡ none))
      × ((decide_stale_recovery none print now files ≡ no_cleanup) ↔ (files.lock ≡ none))
unfolding fail_if_reset_in_progress decide_stale_recovery inspect_lock
lock_decisions print now files = ground arith

-- Once a reset has entered its mode without an error, and as long as the lock file can be read, manual
-- mode is on and the check for a reset in progress answers with an error: for ten minutes from that
-- second that a reset is in progress, and likewise the decision on a recovery is that it is blocked;
-- behind them the decision is to run the cleanup, with the age of the lock as its detail.
pub enter_reset_mode-blocks :
    (print : ℕ → String) (faults : Faults) (now later : Time) (files : Files)
    → (enter_reset_mode faults now files).1 ≡ none
    → let entered = (enter_reset_mode faults now files).0 in
      let err = in_progress (new_reset_in_progress_error "reset is in progress") in
      (entered.manual_flag ≡ true)
      × (((later ≤ whole_seconds now + stale_after)
            × (fail_if_reset_in_progress none print later entered ≡ some err)
            × (decide_stale_recovery none print later entered ≡ blocked err))
          ⊎ ((whole_seconds now + stale_after < later)
              × (is_some (fail_if_reset_in_progress none print later entered) ≡ true)
              × (decide_stale_recovery none print later entered
                  ≡ run_cleanup (
                      concat "reset lock is present for "
                        (print (whole_seconds (later - whole_seconds now)))))))
unfolding fail_if_reset_in_progress decide_stale_recovery inspect_lock enter_reset_mode
    new_reset_in_progress_error
enter_reset_mode-blocks print faults now later files ok = ground arith
