-- ===== src/Update/State.antt =====
-- The state of an installation that is kept in a file (install_state.go). The answer to each write of the
-- file is an argument, by its number, and so is the time that it stamps; a file that fails to be written
-- stays as it was.
use rknno_vpn.Prelude.{
  ℕ, ◌+◌, String, Bool, true, false, not, ◌&&◌, List, [], Option, none, some, str_eq, if◌then◌else◌,
}

pub record InstallState : Type 0 where
  pub status : String
  pub generation : ℕ
  pub step : String
  pub step_status : String
  pub code : String
  pub detail : String
  pub module_path : String
  pub apk_path : String
  pub apk_installed : Bool
  pub module_installed : Bool
  pub started_at : String
  pub updated_at : String

-- What the transaction calls.
pub data InstallCall : Type 0 where
  sets_step : String → String → String → String → InstallCall
  stops_runtime restores_runtime exits_self : InstallCall
  installs_module installs_apk removes_downloads : InstallCall

-- The tracker with its file and the number of writes, the calls so far, and `moduleUpdated`.
pub record Tracker : Type 0 where
  pub state : InstallState
  pub file : Option InstallState
  pub writes : ℕ
  pub calls : List InstallCall
  pub module_updated : Bool

-- `created` is the time when the tracker is made.
pub record Clock : Type 0 where
  pub created : String
  pub time : ℕ → String
  pub write_error : ℕ → Option String

abbrev pub new_install_tracker : Clock → ℕ → String → String → Tracker
new_install_tracker w generation module_path apk_path = record {
  state = record {
    status = "running";
    generation = generation;
    step = "";
    step_status = "";
    code = "";
    detail = "";
    module_path = module_path;
    apk_path = apk_path;
    apk_installed = false;
    module_installed = false;
    started_at = w.created;
    updated_at = w.created;
  };
  file = none;
  writes = 0;
  calls = [];
  module_updated = false;
}

-- `write`, and the error that it returns.
unfoldable pub write_state : Clock → Tracker → Tracker × Option String
write_state w t =
    let stamped = record t.state { updated_at = w.time t.writes } in
    let next = record t { state = stamped; writes = t.writes + 1 } in
    elim (w.write_error t.writes) [
      | none ↦ (record next { file = some stamped }, none)
      | some e ↦ (next, some e)
    ]

-- The status of the state behind a step.
unfoldable pub status_after : String → String → String
status_after step_status status =
    if str_eq step_status "failed"
    then "failed"
    else if not (str_eq status "completed") && not (str_eq status "failed")
    then "running"
    else status

-- `Step`, whose error is only logged.
unfoldable pub track_step : Clock → String → String → String → String → Tracker → Tracker
unfolding write_state status_after
track_step w name step_status code detail t =
    (write_state w (record t {
      state = record t.state {
        step = name;
        step_status = step_status;
        code = code;
        detail = detail;
        status = status_after step_status t.state.status;
      };
    })).0

unfoldable pub mark_apk_installed : Clock → Tracker → Tracker
unfolding write_state
mark_apk_installed w t =
    (write_state w (record t { state = record t.state { apk_installed = true } })).0

unfoldable pub mark_module_installed : Clock → Tracker → Tracker
unfolding write_state
mark_module_installed w t =
    (write_state w (record t { state = record t.state { module_installed = true } })).0

unfoldable pub complete_install : Clock → Tracker → Tracker
unfolding write_state
complete_install w t =
    (write_state w (record t {
      state = record t.state { status = "completed"; step_status = "ok"; code = ""; detail = "" };
    })).0

unfoldable pub new_download_tracker : Clock → Tracker
new_download_tracker w =
    let t = new_install_tracker w 0 "" "" in
    record t { state = record t.state { status = "downloading"; step = "update-download" } }

-- The paths are those of the module and of the APK, in this order.
unfoldable pub complete_download :
    Clock → Option (String × String) → Tracker → Tracker × Option String
unfolding write_state
complete_download w downloaded t =
    let state = record t.state {
      status = "downloaded";
      step = "persist-artifacts";
      step_status = "ok";
      code = "";
      detail = "";
    } in
    let placed : InstallState = elim downloaded [
      | none ↦ state
      | some paths ↦ record state { module_path = paths.0; apk_path = paths.1 }
    ] in
    write_state w (record t { state = placed })
