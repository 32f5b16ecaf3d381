-- ===== src/Reset/Tests.antt =====
-- The reset at concrete inputs: the properties applied, and short runs.
use rknno_vpn.Prelude.{
  ◌+◌, ◌<◌, ◌≤◌, ◌≡◌, ◌⊎◌, ◌↔◌, refl, true, false, [], ◌∷◌, ◌++◌, none, some, is_some,
  if◌then◌else◌, decimal, concat, ◌-◌,
}
use rknno_vpn.Runtime.Types.{backend_root_tproxy}
use rknno_vpn.Runtime.Tasks.{reset_failure}
use rknno_vpn.Reset.Files.{
  Files, LockFile, Faults, removed, not_there, refused, enter_reset_mode, whole_seconds,
}
use rknno_vpn.Reset.Controller.{Answers, run, run_steps}
use rknno_vpn.Reset.Lock.{
  started, stale_after, in_progress, run_cleanup, blocked, decide_stale_recovery,
  fail_if_reset_in_progress, new_reset_in_progress_error,
}
use rknno_vpn.Reset.Steps.{names, no_failure}
use rknno_vpn.Reset.Laws.{
  prepare_fails, prepare_names, clean_names, leave_name, run-names, reset_failure-run,
}
use rknno_vpn.Reset.Locking.{LeaveFailed, run-lock}
use rknno_vpn.Reset.Blocking.{enter_reset_mode-blocks}
use rknno_vpn.Runtime.Types.{stopped}
use rknno_vpn.Runtime.State.{or_text}
use rknno_vpn.Runtime.Engine.{finish, returned}
use rknno_vpn.Runtime.Tasks.{run_reset}
use rknno_vpn.Runtime.Samples.{env, desired, machine, routine}
use rknno_vpn.Reset.Operation.{
  locked, with_reset_controller, recover_stale_reset_lock, reported, has_succeeded, recover_cases,
  run_reset_over_controller,
}

abbrev no_faults : Faults
no_faults = record {
  mkdir_run = none;
  mkdir_config = none;
  write_lock = none;
  remove_marker = none;
  write_manual = none;
  remove_lock = none;
}

abbrev marked : Files
marked = record { lock = none; active_marker = true; manual_flag = false }

-- One stale file is refused and one file is left over.
abbrev answers : Answers
answers = record {
  now = 5;
  faults = no_faults;
  rescue_reset_core = none;
  exec_rescue_reset = none;
  stale_files =
      ("daemon.sock", removed) ∷ ("sing-box.pid", not_there) ∷ ("xray.pid", refused "busy") ∷ [];
  verify_cleanup = "chain RKNNOVPN_OUT" ∷ [];
}

-- The core does not stop.
abbrev stuck : Answers
stuck = record answers { rescue_reset_core = some "still running" }

run-names_example :
    names (run 3 backend_root_tproxy stuck marked)
    ≡ prepare_names ++ (if prepare_fails stuck marked then [] else clean_names) ++ leave_name
run-names_example = run-names 3 backend_root_tproxy stuck marked

reset_failure-run_example :
    (reset_failure (run 3 backend_root_tproxy answers marked) ≡ none)
    ↔ (no_failure (run 3 backend_root_tproxy answers marked).steps ≡ true)
reset_failure-run_example = reset_failure-run 3 backend_root_tproxy answers marked

run-lock_example :
    ((run_steps 3 backend_root_tproxy answers marked).files.lock ≡ none)
    ⊎ LeaveFailed (run 3 backend_root_tproxy answers marked).steps
run-lock_example = run-lock 3 backend_root_tproxy answers marked

enter_reset_mode-blocks_example :
    let entered = (enter_reset_mode no_faults 5 marked).0 in
    let err = in_progress (new_reset_in_progress_error "reset is in progress") in
    (entered.manual_flag ≡ true)
    × (((900000000000 ≤ whole_seconds 5 + stale_after)
          × (fail_if_reset_in_progress none decimal 900000000000 entered ≡ some err)
          × (decide_stale_recovery none decimal 900000000000 entered ≡ blocked err))
        ⊎ ((whole_seconds 5 + stale_after < 900000000000)
            × (is_some (fail_if_reset_in_progress none decimal 900000000000 entered) ≡ true)
            × (decide_stale_recovery none decimal 900000000000 entered
                ≡ run_cleanup (
                    concat "reset lock is present for "
                      (decimal (whole_seconds (900000000000 - whole_seconds 5)))))))
unfolding enter_reset_mode
enter_reset_mode-blocks_example =
    enter_reset_mode-blocks decimal no_faults 5 900000000000 marked refl

-- A lock that was left an hour ago.
abbrev left_behind : Files
left_behind = record {
  lock = some (record { mod_time = 5; stamp = none });
  active_marker = true;
  manual_flag = true;
}

recover_cases_example :
    let r = recover_stale_reset_lock none decimal 3600000000005 4 answers left_behind in
    let report = run 4 backend_root_tproxy answers left_behind in
    ((left_behind.lock ≡ none) × (r.0 ≡ none) × (r.1 ≡ none))
    ⊎ ((lock : LockFile) × (left_behind.lock ≡ some lock)
        × (((3600000000005 ≤ started lock + stale_after)
              × (r.0 ≡ none)
              × (r.1
                  ≡ some
                      (locked (in_progress (new_reset_in_progress_error "reset is in progress")))))
            ⊎ ((started lock + stale_after < 3600000000005)
                × (r.0 ≡ some report)
                × ((r.1 ≡ none) ↔ (no_failure report.steps ≡ true)))))
recover_cases_example = recover_cases decimal 3600000000005 4 answers left_behind

run_reset_over_controller_example :
    let whole = with_reset_controller answers marked env in
    let after =
      finish whole routine.op
        (returned (run_reset whole "ROOT_TPROXY" desired routine.op))
        machine.state in
    let report =
      run routine.op.generation (or_text "ROOT_TPROXY" backend_root_tproxy) answers marked in
    (after.applied.phase ≡ stopped)
    × (reported after.last ≡ some report)
    × ((has_succeeded after.last ≡ true) ↔ (no_failure report.steps ≡ true))
run_reset_over_controller_example =
    run_reset_over_controller env answers marked "ROOT_TPROXY" desired routine.op machine.state
