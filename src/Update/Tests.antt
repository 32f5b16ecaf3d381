-- ===== src/Update/Tests.antt =====
-- The installation at concrete answers: the properties applied.
use rknno_vpn.Prelude.{refl, true, ◌++◌, none, some}
use rknno_vpn.Update.State.{Clock}
use rknno_vpn.Update.Install.{
  InstallTransaction, Answers, run_install_transaction, install_body, stop_runtime, install_module,
  install_apk, clean_up, schedule_exit,
}
use rknno_vpn.Update.Steps.{At}
use rknno_vpn.Update.Written.{InFile}
use rknno_vpn.Update.Stages.{plan}
use rknno_vpn.Update.Outcome.{
  daemon_restart, ShowsRestart, run_install_transaction-plan, run_install_transaction-shows,
}

abbrev clock : Clock
clock = record { created = "t0"; time = λ n. "t1"; write_error = λ n. none }

abbrev both : InstallTransaction
both = record {
  generation = 4;
  update_dir = "/d/update";
  module_path = "/d/update/module.zip";
  module_base = "module.zip";
  apk_path = "/d/update/panel.apk";
  apk_base = "panel.apk";
  module_exists = true;
  apk_exists = true;
  was_runtime_running = true;
  sets_operation_step = true;
  restores = true;
  schedules_exit = true;
}

abbrev all_well : Answers
all_well = record {
  at_start = none;
  before_stop = none;
  before_module = none;
  before_apk = none;
  before_cleanup = none;
  stop = some none;
  module_install = none;
  apk_install = none;
  removal = none;
}

-- The module is installed and the APK is not.
abbrev no_apk : Answers
no_apk = record all_well { apk_install = some "boom" }

run_install_transaction-plan_example :
    At "completed" true true
      (plan clock both all_well ++ daemon_restart clock both all_well true)
      (run_install_transaction clock both all_well).0
    × InFile clock (run_install_transaction clock both all_well).0
unfolding run_install_transaction install_body stop_runtime install_module install_apk clean_up
run_install_transaction-plan_example = run_install_transaction-plan clock both all_well refl

run_install_transaction-shows_example :
    ShowsRestart (run_install_transaction clock both no_apk).0.state
    × InFile clock (run_install_transaction clock both no_apk).0
unfolding run_install_transaction install_body stop_runtime install_module install_apk clean_up
    schedule_exit
run_install_transaction-shows_example = run_install_transaction-shows clock both no_apk refl
