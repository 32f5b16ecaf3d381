-- ===== src/Core/Falling.antt =====
-- What a hot swap that fails leaves (`cleanupAndDegrade` of `HotSwap` in manager.go).
use rknno_vpn.Prelude.{
  ◌≡◌, refl, sym, ap, ◌∙◌, inl, inr, ◌⊎◌, String, Bool, true, false, Option, none, some,
}
use rknno_vpn.Recovery.Health.{running, degraded}
use mathlib.Core.Option
use rknno_vpn.Core.State.{
  CoreConfig, CoreManager, NodeProfile, Fault, World, RuntimeError, CoreRun, cleared_core,
  clone_config_for_runtime, runtime_preserved_error_with_report,
}
use rknno_vpn.Core.Launch.{address_of}
use rknno_vpn.Core.Swap.{cleanup_and_degrade, give_up, fall_back, refuse}
use rknno_vpn.Core.Quiet.{rules_asked}
use rknno_vpn.Core.Ends.{forget_reports, Post, Reports, fail_stage-Failing, IsTracked}
use rknno_vpn.Core.Restoring.{FellBack, cleanup_and_degrade-FellBack}

module _ (w : World) (m₀ : CoreManager) (b : Bool) (cfg : Option CoreConfig)
    (old : Option NodeProfile) where
  -- An error before the old process is stopped leaves the manager but for the reports.
  pub record SwapRefused (out : CoreRun) (e : RuntimeError) : Type 0 where
    pub core_is : forget_reports out.core ≡ forget_reports m₀
    pub rules_are : rules_asked out.calls ≡ b
    pub rollback_is : e.rollback_applied ≡ false
    pub preserved_is : e.runtime_preserved ≡ false
    pub reports : Reports e
    pub report_is : out.core.last_runtime_report ≡ e.stage_report

  -- An error that leaves the runtime before; its report goes on running.
  pub record SwapUndone (out : CoreRun) (e : RuntimeError) : Type 0 where
    pub state_is : out.core.state ≡ running
    pub config_is : some out.core.config ≡ cfg
    pub process_is : IsTracked out.core
    pub active_is : some out.core.active_profile ≡ Option.map address_of old
    pub running_config_is :
        out.core.running_config ≡ clone_config_for_runtime w (some out.core.config)
    pub running_profile_is : out.core.running_profile ≡ old
    pub rules_are : rules_asked out.calls ≡ b
    pub rollback_is : e.rollback_applied ≡ true
    pub preserved_is : e.runtime_preserved ≡ true
    pub report_is : out.core.last_runtime_report ≡ e.stage_report
    pub status_is : e.stage_report.status ≡ "running"

  -- An error that leaves nothing of a runtime.
  pub record SwapLost (out : CoreRun) (e : RuntimeError) : Type 0 where
    pub core_is : forget_reports out.core ≡ forget_reports (cleared_core degraded out.core)
    pub rules_are : rules_asked out.calls ≡ false
    pub rollback_is : e.rollback_applied ≡ true
    pub preserved_is : e.runtime_preserved ≡ false
    pub reports : Reports e
    pub report_is : out.core.last_runtime_report ≡ e.stage_report

  -- An error behind the end of the old process.
  abbrev pub SwapFell : CoreRun → RuntimeError → Type 0
  SwapFell out e = SwapUndone out e ⊎ SwapLost out e

  -- What holds until the old process is stopped, and what holds from then on.
  abbrev pub Before : CoreRun → Type 0
  Before r =
      (forget_reports r.core ≡ forget_reports m₀)
      × (rules_asked r.calls ≡ b)
      × (r.report.status ≡ "running")

  abbrev pub Middle : CoreRun → Type 0
  Middle r = (r.core.config ≡ m₀.config) × (rules_asked r.calls ≡ b) × (r.report.status ≡ "running")

  give_up-Post :
      (Q : CoreRun → Type 0) (stage layer code err : String) (r : CoreRun)
      (out : CoreRun × Option String)
      → Middle r
      → FellBack w cfg old r out
      → Post Q SwapFell (give_up w stage layer code err out)
  unfolding runtime_preserved_error_with_report cleared_core
  give_up-Post Q stage layer code err r (out, none) m h = record {
    holds = inl (record {
      state_is = h.state_is;
      config_is = h.config_is;
      process_is = h.process_is;
      active_is = h.active_is;
      running_config_is = h.running_config_is;
      running_profile_is = h.running_profile_is;
      rules_are = h.rules_are ∙ m.1;
      rollback_is = refl;
      preserved_is = refl;
      report_is = h.report_is;
      status_is = h.status_is ∙ m.2;
    });
  }
  give_up-Post Q stage layer code err r (out, some cause) m h =
      fail_stage-Failing w SwapFell Q false stage layer code cause true out λ end e f. inr (record {
        core_is =
            f.core_is
            ∙ ap forget_reports h.core_is
            ∙ ap (λ (x : CoreManager). cleared_core degraded x) (sym f.core_is);
        rules_are = ap rules_asked f.calls_are ∙ h.rules_are;
        rollback_is = f.rollback_is;
        preserved_is = f.preserved_is;
        reports = f.reports;
        report_is = f.last_runtime_is;
      })

  module _ (profile : NodeProfile) where
    pub fall_back-Post :
        (Q : CoreRun → Type 0) (stage layer code err : String) (r : CoreRun)
        → Middle r
        → Post Q SwapFell (fall_back w cfg old profile stage layer code err r)
    unfolding fall_back
    fall_back-Post Q stage layer code err r m =
        give_up-Post Q stage layer code err r (cleanup_and_degrade w cfg old err r) m
          (cleanup_and_degrade-FellBack w cfg old err r)

    pub refuse-Post :
        (Q : CoreRun → Type 0) (stage layer code : String) (f : Fault) (r : CoreRun)
        → Before r
        → Post Q SwapRefused (refuse w cfg old profile stage layer code f r)
    unfolding refuse
    refuse-Post Q stage layer code f r h =
        fail_stage-Failing w SwapRefused Q false stage layer code f.text false r λ end e x. record {
          core_is = x.core_is ∙ h.0;
          rules_are = ap rules_asked x.calls_are ∙ h.1;
          rollback_is = x.rollback_is;
          preserved_is = x.preserved_is;
          reports = x.reports;
          report_is = x.last_runtime_is;
        }
