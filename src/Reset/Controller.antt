-- ===== src/Reset/Controller.antt =====
-- The steps of a reset and its report (controller.go, report.go).
use rknno_vpn.Prelude.{
  ℕ, String, Bool, true, false, not, ◌||◌, List, [], ◌∷◌, ◌++◌, Option, none, some, concat, join,
  decimal, length, is_nil, if◌then◌else◌,
}
use rknno_vpn.Runtime.Types.{Time, BackendKind, ResetReport}
use rknno_vpn.Runtime.State.{or_text}
use rknno_vpn.Reset.Files.{
  Files, Faults, Removal, enter_reset_mode, leave_reset_mode, remove_stale_runtime_files,
}

-- What the hooks, the clock and the file system answer in one run.
pub record Answers : Type 0 where
  pub now : Time
  pub faults : Faults
  pub rescue_reset_core : Option String
  pub exec_rescue_reset : Option String
  pub stale_files : List (String × Removal)
  pub verify_cleanup : List String

-- A call of a hook of the daemon.
pub data HookCall : Type 0 where
  stop_subsystems rescue_reset_core exec_rescue_reset clear_runtime_state verify_cleanup : HookCall

-- The report in the making, what the observer saw, the hooks called (both newest last) and the
-- files.
pub record Reset : Type 0 where
  pub report : ResetReport
  pub observed : List String
  pub called : List HookCall
  pub files : Files

-- What the function of a step returns; an error replaces the status and the detail.
pub record StepResult : Type 0 where
  pub status : String
  pub detail : String
  pub err : Option String

abbrev pub done : Option String → StepResult
done err = record { status = "ok"; detail = ""; err = err }

-- `NewReportController`.
unfoldable pub new_report_controller : ℕ → BackendKind → Files → Reset
new_report_controller generation backend files = record {
  report = record {
    backend_kind = backend;
    generation = generation;
    status = "ok";
    steps = [];
    warnings = [];
    errors = [];
    leftovers = [];
    reboot_required = false;
  };
  observed = [];
  called = [];
  files = files;
}

-- `ReportController.Run` with what the step's function returned, and the call of the observer.
unfoldable pub run_step : String → StepResult → Reset → Reset
run_step name result r =
    let report = r.report in
    let seen = record r { observed = r.observed ++ name ∷ [] } in
    elim result.err [
      | none ↦ record seen {
        report = record report {
          steps =
              report.steps
              ++ record { name = name; status = or_text result.status "ok"; detail = result.detail }
                ∷ [];
        };
      }
      | some err ↦ record seen {
        report = record report {
          status = "partial";
          errors = report.errors ++ concat name (concat ": " err) ∷ [];
          steps = report.steps ++ record { name = name; status = "failed"; detail = err } ∷ [];
        };
      }
    ]

abbrev pub calling : HookCall → Reset → Reset
calling hook r = record r { called = r.called ++ hook ∷ [] }

abbrev pub has_errors : Reset → Bool
has_errors r = not (is_nil r.report.errors)

unfoldable pub enter_step : Answers → Reset → Reset
enter_step a r =
    let (files, err) = enter_reset_mode a.faults a.now r.files in
    run_step "enter-reset-mode" (done err) (record r { files = files })

unfoldable pub stop_subsystems_step : Reset → Reset
stop_subsystems_step r = run_step "stop-subsystems" (done none) (calling stop_subsystems r)

unfoldable pub stop_core_step : Answers → Reset → Reset
stop_core_step a r = run_step "stop-core" (done a.rescue_reset_core) (calling rescue_reset_core r)

unfoldable pub script_step : Answers → Reset → Reset
script_step a r =
    run_step "rescue-cleanup-script" (done a.exec_rescue_reset) (calling exec_rescue_reset r)

unfoldable pub clear_step : Reset → Reset
clear_step r = run_step "clear-runtime-state" (done none) (calling clear_runtime_state r)

-- What the step over the stale files returns.
unfoldable pub stale_result : List (String × Removal) → StepResult
stale_result files =
    let (names, err) = remove_stale_runtime_files files in
    record {
      status = if is_nil names then "already_clean" else "ok";
      detail = join ", " names;
      err = err;
    }

unfoldable pub remove_stale_step : Answers → Reset → Reset
remove_stale_step a r = run_step "remove-stale-runtime-files" (stale_result a.stale_files) r

-- `SetLeftovers`, and `AddWarning` where there are leftovers.
unfoldable pub set_leftovers : List String → Reset → Reset
set_leftovers leftovers r =
    let report = record (r.report) { leftovers = leftovers } in
    if is_nil leftovers then record r { report = report } else record r {
      report = record report {
        reboot_required = true;
        warnings =
            report.warnings
            ++ concat "verify-cleanup: "
                (concat (decimal (length leftovers)) " leftover(s) after reset")
              ∷ [];
      };
    }

unfoldable pub verify_step : Answers → Reset → Reset
verify_step a r =
    let leftovers = a.verify_cleanup in
    run_step "verify-cleanup"
      (record {
        status = if is_nil leftovers then "ok" else "warning";
        detail = join "; " leftovers;
        err = none;
      })
      (set_leftovers leftovers (calling verify_cleanup r))

unfoldable pub leave_step : Answers → Reset → Reset
leave_step a r =
    let (files, err) = leave_reset_mode a.faults r.files in
    run_step "leave-reset-mode" (done err) (record r { files = files })

-- `Finish`.
unfoldable pub finish_report : ResetReport → ResetReport
finish_report report =
    let status =
      if not (is_nil report.errors)
      then "partial"
      else if not (is_nil report.warnings) || not (is_nil report.leftovers)
      then "clean_with_warnings"
      else report.status in
    record report {
      status = status;
      reboot_required = if is_nil report.leftovers then report.reboot_required else true;
    }

unfoldable pub prepare : Answers → Reset → Reset
prepare a r = script_step a (stop_core_step a (stop_subsystems_step (enter_step a r)))

unfoldable pub clean : Answers → Reset → Reset
clean a r = verify_step a (remove_stale_step a (clear_step r))

-- `Controller.Run` up to `Finish`.
unfoldable pub run_steps : ℕ → BackendKind → Answers → Files → Reset
run_steps generation backend a files =
    let prepared = prepare a (new_report_controller generation backend files) in
    if has_errors prepared then leave_step a prepared else leave_step a (clean a prepared)

unfoldable pub run : ℕ → BackendKind → Answers → Files → ResetReport
run generation backend a files = finish_report (run_steps generation backend a files).report
