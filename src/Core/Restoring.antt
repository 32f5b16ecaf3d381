-- ===== src/Core/Restoring.antt =====
-- What the return to the runtime before, and the giving up of it, leave
-- (`restorePreviousRuntimeAfterHotSwapFailure` and `cleanupAndDegrade` of manager.go).
use rknno_vpn.Prelude.{
  arith, ◌≡◌, refl, sym, ap, ◌∙◌, String, false, Option, none, some, pos, concat,
}
use rknno_vpn.Recovery.Health.{running, degraded}
use mathlib.Core.Option
use rknno_vpn.Core.Report.{RuntimeStageReport, add_stage}
use rknno_vpn.Core.State.{
  CoreConfig, CoreManager, NodeProfile, core_config, core_pid_file, xray_pid_file, sigkill,
  renders_xray, spawns_xray, waits_for_port, cleans_rules, removes, writes_pid, World, CoreRun,
  tell, record_stage, cleared_core, clone_config_for_runtime,
}
use rknno_vpn.Core.Process.{
  ListenerWaitSpec, Spawned, unopened, unstarted, spawned, spawn_sing_box, wait_runtime_listeners,
  stop_xray_sidecar, signal_and_wait, with_process, without_process, with_xray,
}
use rknno_vpn.Core.Launch.{xray_sidecar_socks_port, address_of, mark_running}
use rknno_vpn.Core.Restore.{
  and_restore, restore_xray, restored_after_wait, restored_after_spawn, restore_core,
  restore_previous_runtime,
}
use rknno_vpn.Core.Swap.{degrade, degrade_unless_restored, cleanup_and_degrade}
use rknno_vpn.Core.Quiet.{
  rules_asked, Quiet, stop_xray_sidecar-Quiet, signal_and_wait-Quiet, spawn_sing_box-Quiet,
  kill_process_with_timeout-Quiet,
}
use rknno_vpn.Core.Ends.{Keeps, wait_runtime_listeners-Keeps}
use rknno_vpn.Core.Ends.{IsTracked, IsTracked-Keeps}

-- The configuration of the manager and the rules are as they were.
pub record Kept (r out : CoreRun) : Type 0 where
  pub config_is : out.core.config ≡ r.core.config
  pub rules_are : rules_asked out.calls ≡ rules_asked r.calls
  pub status_is : out.report.status ≡ r.report.status

Quiet-Kept :
    {m : CoreManager} {r out : CoreRun} → Quiet m r out → m.config ≡ r.core.config → Kept r out
Quiet-Kept q h = record {
  config_is = ap (λ (m : CoreManager). m.config) q.core_is ∙ h;
  rules_are = q.rules_are;
  status_is = ap (λ (x : RuntimeStageReport). x.status) q.report_is;
}

module _ (w : World) where
  restore_xray-Kept : (profile : NodeProfile) (r : CoreRun) → Kept r (restore_xray w profile r).0
  unfolding restore_xray rules_asked
  restore_xray-Kept profile r =
      let r1 = tell (renders_xray profile) r in
      let proc = w.new_pid r1.calls spawns_xray in
      let r2 : CoreRun =
        tell (writes_pid xray_pid_file proc) (with_xray proc (tell spawns_xray r1)) in
      let wait = waits_for_port (pos xray_sidecar_socks_port) 10 proc in
      ground (arith, Quiet-Kept (stop_xray_sidecar-Quiet w (tell wait r2)) refl)

  -- A runtime that serves the profile with the configuration of the manager.
  pub record Serves (profile : NodeProfile) (out : CoreRun) : Type 0 where
    pub state_is : out.core.state ≡ running
    pub process_is : IsTracked out.core
    pub active_is : out.core.active_profile ≡ address_of profile
    pub running_config_is :
        out.core.running_config ≡ clone_config_for_runtime w (some out.core.config)
    pub running_profile_is : out.core.running_profile ≡ some profile
    pub report_is : out.core.last_runtime_report ≡ out.report

  -- The end of a return to the runtime of a profile.
  pub record Returns (profile : NodeProfile) (r : CoreRun) (out : CoreRun × Option String)
      : Type 0 where
    pub kept : Kept r out.0
    pub serves : out.1 ≡ none → Serves profile out.0

  Kept-trans : {r s t : CoreRun} → Kept r s → Kept s t → Kept r t
  Kept-trans h k = record {
    config_is = k.config_is ∙ h.config_is;
    rules_are = k.rules_are ∙ h.rules_are;
    status_is = k.status_is ∙ h.status_is;
  }

  Keeps-Kept : {r out : CoreRun} → Keeps r out → Kept r out
  Keeps-Kept k = record {
    config_is = ap (λ (m : CoreManager). m.config) k.core_is;
    rules_are = k.rules_are;
    status_is = k.status_is;
  }

  gives_up-Returns :
      (profile : NodeProfile) (r out : CoreRun) (text : String)
      → Kept r out
      → Returns profile r ((stop_xray_sidecar w out).0, some text)
  gives_up-Returns profile r out text h = record {
    kept = Kept-trans h (Quiet-Kept (stop_xray_sidecar-Quiet w out) refl);
    serves = λ e. absurd (cc e);
  }

  restored_after_wait-Returns :
      (profile : NodeProfile) (r waited : CoreRun) (o : Option (ListenerWaitSpec × String))
      → Kept r waited
      → IsTracked waited.core
      → Returns profile r (restored_after_wait w profile waited o)
  unfolding restored_after_wait mark_running record_stage add_stage rules_asked
  restored_after_wait-Returns profile r waited none h t = record {
    kept = record { config_is = h.config_is; rules_are = h.rules_are; status_is = h.status_is };
    serves = λ e. record {
      state_is = refl;
      process_is = t;
      active_is = refl;
      running_config_is = refl;
      running_profile_is = refl;
      report_is = refl;
    };
  }
  restored_after_wait-Returns profile r waited (some (spec, text)) h t =
      gives_up-Returns profile r _ _
        (Kept-trans h (Quiet-Kept (kill_process_with_timeout-Quiet w 1200 waited) refl))

  restored_after_spawn-Returns :
      (profile : NodeProfile) (r started : CoreRun) (o : Spawned)
      → Kept r started
      → Returns profile r (restored_after_spawn w profile started o)
  unfolding restored_after_spawn rules_asked
  restored_after_spawn-Returns profile r started (unopened e) h =
      gives_up-Returns profile r started _ h
  restored_after_spawn-Returns profile r started (unstarted e) h =
      gives_up-Returns profile r started _ h
  restored_after_spawn-Returns profile r started (spawned proc) h =
      let r1 : CoreRun = tell (writes_pid core_pid_file proc) (with_process proc started) in
      let waited = wait_runtime_listeners w false proc r1 in
      let keeps = wait_runtime_listeners-Keeps w false proc r1 in
      restored_after_wait-Returns profile r waited.0 waited.1
        (Kept-trans
          (record { config_is = h.config_is; rules_are = h.rules_are; status_is = h.status_is })
          (Keeps-Kept keeps))
        (IsTracked-Keeps r1 waited.0 keeps (refl, refl))

  restore_core-Returns :
      (profile : NodeProfile) (r : CoreRun) → Returns profile r (restore_core w profile r)
  unfolding restore_core
  restore_core-Returns profile r =
      let started = spawn_sing_box w core_config r in
      restored_after_spawn-Returns profile r started.0 started.1
        (Quiet-Kept (spawn_sing_box-Quiet w core_config r) refl)

  -- A return that is tried: the rules are as they were, and it succeeds with the runtime of the
  -- profile under its configuration.
  pub record Tries (cfg : CoreConfig) (profile : NodeProfile) (r : CoreRun)
      (out : CoreRun × Option String) : Type 0 where
    pub rules_are : rules_asked out.0.calls ≡ rules_asked r.calls
    pub config_is : out.0.core.config ≡ cfg
    pub status_is : out.0.report.status ≡ r.report.status
    pub serves : out.1 ≡ none → Serves profile out.0

  and_restore-Tries :
      (cfg : CoreConfig) (profile : NodeProfile) (r : CoreRun) (out : CoreRun × Option String)
      → out.0.core.config ≡ cfg
      → rules_asked out.0.calls ≡ rules_asked r.calls
      → out.0.report.status ≡ r.report.status
      → Tries cfg profile r (and_restore out (restore_core w profile))
  and_restore-Tries cfg profile r (s, none) h k l =
      let back = restore_core-Returns profile s in
      record {
        rules_are = back.kept.rules_are ∙ k;
        config_is = back.kept.config_is ∙ h;
        status_is = back.kept.status_is ∙ l;
        serves = back.serves;
      }
  and_restore-Tries cfg profile r (s, some e) h k l = record {
    rules_are = k;
    config_is = h;
    status_is = l;
    serves = λ e. absurd (cc e);
  }

  restore_previous_runtime-Tries :
      (cfg : CoreConfig) (profile : NodeProfile) (r : CoreRun)
      → Tries cfg profile r (restore_previous_runtime w cfg profile r)
  unfolding restore_previous_runtime
  restore_previous_runtime-Tries cfg profile r =
      let signalled = signal_and_wait w sigkill r in
      let emptied : CoreRun = without_process (stop_xray_sidecar w signalled).0 in
      let configured : CoreRun = record emptied { core = record emptied.core { config = cfg } } in
      let kept = restore_xray-Kept profile configured in
      and_restore-Tries cfg profile r (restore_xray w profile configured) kept.config_is
        (kept.rules_are
          ∙ (stop_xray_sidecar-Quiet w signalled).rules_are
          ∙ (signal_and_wait-Quiet w sigkill r).rules_are)
        (kept.status_is
          ∙ ap (λ (x : RuntimeStageReport). x.status)
              ((stop_xray_sidecar-Quiet w signalled).report_is
                ∙ (signal_and_wait-Quiet w sigkill r).report_is))

  -- The manager that is given up: it is degraded, cleared_core, and the rules are out.
  pub record Degraded (out : CoreRun) : Type 0 where
    pub core_is : out.core ≡ cleared_core degraded out.core
    pub rules_are : rules_asked out.calls ≡ false

  degrade-Degraded : (cause : String) (r : CoreRun) → Degraded (degrade w cause r).0
  unfolding degrade cleared_core rules_asked
  degrade-Degraded cause r =
      let taken = tell cleans_rules r in
      let ended = signal_and_wait w sigkill taken in
      let forgotten : CoreRun = record ended {
        core = record ended.core {
          process = none;
          exit_ch = none;
          pid = 0;
          active_profile = "";
          running_config = none;
          running_profile = none;
          started_at = 0;
          state = degraded;
        };
      } in
      let q = stop_xray_sidecar-Quiet w (tell (removes core_pid_file) forgotten) in
      record {
        core_is = q.core_is ∙ ap (λ (m : CoreManager). cleared_core degraded m) (sym q.core_is);
        rules_are = q.rules_are ∙ (signal_and_wait-Quiet w sigkill taken).rules_are;
      }

  -- The runtime before, of a configuration and a profile that were kept.
  pub record Preserved (cfg : Option CoreConfig) (old : Option NodeProfile) (r out : CoreRun)
      : Type 0 where
    pub state_is : out.core.state ≡ running
    pub config_is : some out.core.config ≡ cfg
    pub process_is : IsTracked out.core
    pub active_is : some out.core.active_profile ≡ Option.map address_of old
    pub running_config_is :
        out.core.running_config ≡ clone_config_for_runtime w (some out.core.config)
    pub running_profile_is : out.core.running_profile ≡ old
    pub rules_are : rules_asked out.calls ≡ rules_asked r.calls
    pub report_is : out.core.last_runtime_report ≡ out.report
    pub status_is : out.report.status ≡ r.report.status

  -- The end of a fall back: the runtime before, or nothing of a runtime.
  abbrev pub FellBack :
      Option CoreConfig → Option NodeProfile → CoreRun → CoreRun × Option String → Type 0
  FellBack cfg old r (out, some cause) = Degraded out
  FellBack cfg old r (out, none) = Preserved cfg old r out

  tried-FellBack :
      (cfg : CoreConfig) (profile : NodeProfile) (cause : String) (r : CoreRun)
      (out : CoreRun × Option String)
      → Tries cfg profile r out
      → FellBack (some cfg) (some profile) r (degrade_unless_restored w cause out)
  unfolding degrade_unless_restored degrade
  tried-FellBack cfg profile cause r (out, some e) h =
      degrade-Degraded (concat cause (concat "; rollback failed: " e)) out
  tried-FellBack cfg profile cause r (out, none) h =
      let s = h.serves refl in
      record {
        state_is = s.state_is;
        config_is = ap (λ (c : CoreConfig). some c) h.config_is;
        process_is = s.process_is;
        active_is = ap (λ (t : String). some t) s.active_is;
        running_config_is = s.running_config_is;
        running_profile_is = s.running_profile_is;
        rules_are = h.rules_are;
        report_is = s.report_is;
        status_is = h.status_is;
      }

  pub cleanup_and_degrade-FellBack :
      (cfg : Option CoreConfig) (old : Option NodeProfile) (cause : String) (r : CoreRun)
      → FellBack cfg old r (cleanup_and_degrade w cfg old cause r)
  unfolding cleanup_and_degrade degrade
  cleanup_and_degrade-FellBack (some cfg) (some profile) cause r =
      tried-FellBack cfg profile cause r _ (restore_previous_runtime-Tries cfg profile r)
  cleanup_and_degrade-FellBack (some cfg) none cause r = degrade-Degraded cause r
  cleanup_and_degrade-FellBack none old cause r = degrade-Degraded cause r
