-- ===== src/Reset/Operation.antt =====
-- The reset controller behind the orchestrator (daemon/internal/runtime/root/backend.go,
-- daemon/cmd/daemon/runtime_v2_reset.go).
use rknno_vpn.Prelude.{
  ℕ, ◌+◌, ◌<◌, ◌≤◌, String, Bool, true, false, ◌≡◌, ◌⊎◌, ◌↔◌, List, [], ◌∷◌, Option, none, some,
  is_nil, is_some, arith, concat, str_eq, if◌then◌else◌, ◌||◌, not,
}
use rknno_vpn.Runtime.Types.{
  BackendKind, backend_root_tproxy, DesiredState, OperationStatus, OperationResult, ResetReport,
  Time, stopped,
}
use rknno_vpn.Runtime.State.{Env, Orchestrator, or_text}
use rknno_vpn.Runtime.Engine.{returned, finish, completion_of, operation_result}
use rknno_vpn.Runtime.Laws.Finish.{finish-last}
use rknno_vpn.Runtime.Laws.Endings.{finish-applied}
use rknno_vpn.Runtime.Tasks.{backend_of, run_reset, reset_failure}
use rknno_vpn.Reset.Files.{Files, LockFile}
use rknno_vpn.Reset.Controller.{Answers, run}
use rknno_vpn.Reset.Lock.{
  started, stale_after, in_progress, new_reset_in_progress_error, LockError, decide_stale_recovery,
  inspect_lock, no_cleanup, run_cleanup, blocked,
}
use rknno_vpn.Reset.Steps.{no_failure}
use rknno_vpn.Reset.Laws.{reset_failure-run}

-- `Backend.Reset` through `resetNetworkStateReport`: the other answers of the backends stay open.
unfoldable pub with_reset_controller : Answers → Files → Env → Env
with_reset_controller a files env = record env {
  backend = λ kind. record (env.backend kind) { reset = λ generation. run generation kind a files };
}

-- `Errors[0]`, or nothing.
abbrev pub head_error : List String → String
head_error [] = ""
head_error (err ∷ errs) = err

pub data RecoveryError : Type 0 where
  locked : LockError → RecoveryError
  recovery_failed : String → RecoveryError

-- `recoverStaleResetLock`; `stat`, `print` and `now` are those of `inspect_lock`.
unfoldable pub recover_stale_reset_lock :
    Option String
    → (ℕ → String)
    → Time
    → ℕ
    → Answers
    → Files
    → Option ResetReport × Option RecoveryError
recover_stale_reset_lock stat print now generation a files =
    elim (decide_stale_recovery stat print now files) [
      | blocked err ↦ (none, some (locked err))
      | no_cleanup ↦ (none, none)
      | run_cleanup detail ↦
          let report = run generation backend_root_tproxy a files in
          if not (is_nil report.errors)
            || str_eq report.status "partial"
            || str_eq report.status "failed"
          then (
            some report,
            some (
                recovery_failed (
                  concat detail (
                    concat ": "
                      (or_text (head_error report.errors) "stale reset lock recovery failed")))),
          )
          else (some report, none)
    ]

failure_test :
    (report : ResetReport)
    → (reset_failure report ≡ none) ↔ (
        (not (is_nil report.errors)
          || str_eq report.status "partial"
          || str_eq report.status "failed")
        ≡ false)
unfolding reset_failure
failure_test report = ground arith

-- A recovery of a lock file that can be read does nothing where there is no lock. Where the lock is at
-- most ten minutes old it is refused without a reset, since one is in progress. Where it is older the
-- reset runs, and the recovery fails exactly if a step of that failed.
pub recover_cases :
    (print : ℕ → String) (now : Time) (generation : ℕ) (a : Answers) (files : Files)
    → let r = recover_stale_reset_lock none print now generation a files in
      let report = run generation backend_root_tproxy a files in
      ((files.lock ≡ none) × (r.0 ≡ none) × (r.1 ≡ none))
      ⊎ ((lock : LockFile) × (files.lock ≡ some lock)
          × (((now ≤ started lock + stale_after)
                × (r.0 ≡ none)
                × (r.1
                    ≡ some (
                        locked (in_progress (new_reset_in_progress_error "reset is in progress")))))
              ⊎ ((started lock + stale_after < now)
                  × (r.0 ≡ some report)
                  × ((r.1 ≡ none) ↔ (no_failure report.steps ≡ true)))))
unfolding recover_stale_reset_lock decide_stale_recovery inspect_lock
recover_cases print now generation a files =
    let test = failure_test (run generation backend_root_tproxy a files) in
    let steps = reset_failure-run generation backend_root_tproxy a files in
    ground (arith, test, steps)

abbrev pub reported : Option OperationResult → Option ResetReport
reported none = none
reported (some result) = result.reset_report

abbrev pub has_succeeded : Option OperationResult → Bool
has_succeeded none = false
has_succeeded (some result) = result.succeeded

-- The completion of a reset: stopped, with the report, and an error exactly if it counts as a failure.
run_reset-completion :
    (env : Env) (kind : BackendKind) (desired : DesiredState) (op : OperationStatus)
    → let c = run_reset env kind desired op in
      let report = (backend_of env kind).reset op.generation in
      (c.applied.phase ≡ stopped)
      × (c.reset_report ≡ some report)
      × (is_some c.err ≡ is_some (reset_failure report))
unfolding run_reset
run_reset-completion env kind desired op = ground arith

succeeded_iff :
    (failure : Option String) (b : Bool)
    → ((failure ≡ none) ↔ (b ≡ true))
    → (not (is_some failure) ≡ true) ↔ (b ≡ true)
succeeded_iff failure b h = ground (arith, h)

-- The orchestrator's reset over the reset controller leaves the runtime stopped and keeps the report
-- in its last result, which counts as a success exactly if no step of the reset failed.
pub run_reset_over_controller :
    (env : Env) (a : Answers) (files : Files) (kind : BackendKind) (desired : DesiredState)
    (op : OperationStatus) (o : Orchestrator)
    → let whole = with_reset_controller a files env in
      let after = finish whole op (returned (run_reset whole kind desired op)) o in
      let report = run op.generation (or_text kind backend_root_tproxy) a files in
      (after.applied.phase ≡ stopped)
      × (reported after.last ≡ some report)
      × ((has_succeeded after.last ≡ true) ↔ (no_failure report.steps ≡ true))
unfolding with_reset_controller completion_of operation_result
run_reset_over_controller env a files kind desired op o =
    let whole = with_reset_controller a files env in
    let c = run_reset whole kind desired op in
    let done = run_reset-completion whole kind desired op in
    let law = finish-applied whole op (returned c) o in
    let iff =
      succeeded_iff _ _
        (reset_failure-run op.generation (or_text kind backend_root_tproxy) a files) in
    (
      ground (arith, law, done),
      rw (finish-last whole op (returned c) o) done.1,
      rw (finish-last whole op (returned c) o, done.2) iff,
    )
