-- ===== src/Update/Install.antt =====
-- The installation of an update (`RunInstallTransaction` of install_transaction.go). What the context, the
-- hooks and the installers answer are arguments; `none` is a nil hook. The logs are left out.
use rknno_vpn.Prelude.{
  ℕ, String, Bool, true, ◌&&◌, [], ◌∷◌, ◌++◌, Option, none, some, if◌then◌else◌,
}
use rknno_vpn.Update.State.{
  InstallCall, sets_step, stops_runtime, restores_runtime, exits_self, installs_module,
  installs_apk, removes_downloads, Tracker, Clock, new_install_tracker, write_state, track_step,
  mark_apk_installed, mark_module_installed, complete_install,
}

-- The error of the hook that stops the runtime, with the code that `runtimeerr.Code` finds in it.
pub record StopError : Type 0 where
  pub text : String
  pub code : Option String

pub data InstallError : Type 0 where
  cancelled record_failed module_failed apk_failed cleanup_failed : String → InstallError
  runtime_stop_failed : StopError → InstallError

-- The fields of the transaction, with the last elements of its two paths. That a hook is there is a flag.
pub record InstallTransaction : Type 0 where
  pub generation : ℕ
  pub update_dir : String
  pub module_path : String
  pub module_base : String
  pub apk_path : String
  pub apk_base : String
  pub module_exists : Bool
  pub apk_exists : Bool
  pub was_runtime_running : Bool
  pub sets_operation_step : Bool
  pub restores : Bool
  pub schedules_exit : Bool

-- What the context answers at its five checks, and what the rest answers.
pub record Answers : Type 0 where
  pub at_start : Option String
  pub before_stop : Option String
  pub before_module : Option String
  pub before_apk : Option String
  pub before_cleanup : Option String
  pub stop : Option (Option StopError)
  pub module_install : Option String
  pub apk_install : Option String
  pub removal : Option String

abbrev pub InstallRun : Type 0
InstallRun = Tracker × Option InstallError

-- The rest of the function, unless an error is returned.
abbrev pub and_then : InstallRun → (Tracker → InstallRun) → InstallRun
and_then run k = elim run.1 [ none ↦ k run.0 | some e ↦ (run.0, some e) ]

abbrev pub call : InstallCall → Tracker → Tracker
call c t = record t { calls = t.calls ++ c ∷ [] }

-- `ctx.Err()`.
abbrev pub check : Option String → Tracker → InstallRun
check none t = (t, none)
check (some e) t = (t, some (cancelled e))

-- A part of the function that runs under a condition, the context checked first.
abbrev pub stage : Bool → Option String → (Tracker → InstallRun) → Tracker → InstallRun
stage on answer f t = if on then and_then (check answer t) f else (t, none)

module _ (w : Clock) (tx : InstallTransaction) (a : Answers) where
  -- The closure of this name.
  unfoldable pub mark_step : String → String → String → String → Tracker → Tracker
  unfolding track_step
  mark_step name status code detail t =
      let noted =
        if tx.sets_operation_step then call (sets_step name status code detail) t else t in
      track_step w name status code detail noted

  unfoldable pub stop_runtime : Tracker → InstallRun
  unfolding mark_step
  stop_runtime t =
      let started =
        mark_step "update-stop-runtime" "running" "UPDATE_STOP_RUNTIME"
          "stopping runtime before module install" t in
      elim a.stop [
        | none ↦ (mark_step "update-stop-runtime" "ok" "" "" started, none)
        | some answer ↦
            let called = call stops_runtime started in
            elim answer [
              | none ↦ (mark_step "update-stop-runtime" "ok" "" "" called, none)
              | some e ↦
                  let code : String = elim e.code [ none ↦ "RESET_IN_PROGRESS" | some c ↦ c ] in
                  (
                    mark_step "update-stop-runtime" "failed" code e.text called,
                    some (runtime_stop_failed e),
                  )
            ]
      ]

  unfoldable pub install_module : Tracker → InstallRun
  unfolding mark_step mark_module_installed
  install_module t =
      let started =
        mark_step "update-install-module" "running" "MODULE_INSTALLING" tx.module_base t in
      let called = call installs_module started in
      elim a.module_install [
        | none ↦
            let done = mark_module_installed w (record called { module_updated = true }) in
            (mark_step "update-install-module" "ok" "" "" done, none)
        | some e ↦
            let restored =
              if tx.was_runtime_running && tx.restores
              then call restores_runtime called
              else called in
            (
              mark_step "update-install-module" "failed" "MODULE_INSTALL_FAILED" e restored,
              some (module_failed e),
            )
      ]

  unfoldable pub install_apk : Tracker → InstallRun
  unfolding mark_step mark_apk_installed
  install_apk t =
      let started = mark_step "update-install-apk" "running" "APK_INSTALLING" tx.apk_base t in
      let called = call installs_apk started in
      elim a.apk_install [
        | none ↦ (mark_step "update-install-apk" "ok" "" "" (mark_apk_installed w called), none)
        | some e ↦ (
          mark_step "update-install-apk" "failed" "APK_INSTALL_FAILED" e called,
          some (apk_failed e),
        )
      ]

  unfoldable pub clean_up : Tracker → InstallRun
  unfolding mark_step complete_install
  clean_up t =
      let started =
        mark_step "update-cleanup-downloads" "running" "UPDATE_CLEANUP" tx.update_dir t in
      let called = call removes_downloads started in
      elim a.removal [
        | none ↦ (complete_install w (mark_step "update-cleanup-downloads" "ok" "" "" called), none)
        | some e ↦ (
          mark_step "update-cleanup-downloads" "failed" "UPDATE_CLEANUP_FAILED" e called,
          some (cleanup_failed e),
        )
      ]

  -- What stands between the start and the deferred function.
  unfoldable pub install_body : Tracker → InstallRun
  install_body t = and_then (stage tx.module_exists a.before_stop stop_runtime t) (λ t1.
      and_then (stage tx.module_exists a.before_module install_module t1) (λ t2.
        and_then (stage tx.apk_exists a.before_apk install_apk t2)
          (λ t3. and_then (check a.before_cleanup t3) clean_up)))

  -- The deferred function.
  unfoldable pub schedule_exit : Tracker → Tracker
  unfolding mark_step
  schedule_exit t =
      if t.module_updated
      then (let marked =
            mark_step "update-schedule-self-exit" "ok" "" "daemon restart scheduled" t in
          if tx.schedules_exit then call exits_self marked else marked)
      else t

  unfoldable pub run_install_transaction : InstallRun
  unfolding write_state
  run_install_transaction =
      let start = new_install_tracker w tx.generation tx.module_path tx.apk_path in
      elim a.at_start [
        | some e ↦ (start, some (cancelled e))
        | none ↦
            let begun = write_state w start in
            elim begun.1 [
              | some e ↦ (begun.0, some (record_failed e))
              | none ↦ (let done = install_body begun.0 in (schedule_exit done.0, done.1))
            ]
      ]
