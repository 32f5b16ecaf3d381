-- ===== src/Core/Starting.antt =====
-- What a start leaves (`Start` of manager.go), by the phase that it fails in.
use rknno_vpn.Prelude.{
  ◌≡◌, refl, ap, ◌∙◌, String, Bool, true, false, if◌then◌else◌, Option, none, some,
}
use rknno_vpn.Recovery.Health.{stopped, starting, running}
use rknno_vpn.Core.Report.{finish_ok}
use rknno_vpn.Core.State.{
  CoreConfig, CoreManager, NodeProfile, core_pid_file, Signal, sigterm, sigkill, cleans_rules,
  removes, Fault, World, RuntimeError, CoreRun, Outcome, continued, tell, record_stage, fail_stage,
  cleared_core, clone_config_for_runtime,
}
use rknno_vpn.Core.Process.{
  ListenerWaitSpec, wait_runtime_listeners, stop_xray_sidecar, signal_and_wait,
}
use rknno_vpn.Core.Launch.{
  in_state, rollback_started, halt, halt_with_xray, roll_back, start_xray_config, start_config,
  start_xray, start_core, start_listeners, start_rules, start_commit, start_stages, address_of,
  mark_running,
}
use rknno_vpn.Core.Quiet.{
  rules_asked, early_signal, no_xray, stop_xray_sidecar-Quiet, signal_and_wait-Quiet,
}
use rknno_vpn.Core.Ends.{
  forget_reports, Post, done, and_then-Post, if_cases, Reports, try_call-Post, fail_stage-Failing,
  Keeps, wait_runtime_listeners-Keeps, IsTracked, IsTracked-Keeps,
}

-- The manager without its process.
abbrev pub no_process : CoreManager → CoreManager
no_process m = record m { process = none; exit_ch = none; pid = 0 }

-- What `rollbackStarted` sets before the sidecar is stopped.
abbrev cleared_but_xray : CoreManager → CoreManager
cleared_but_xray m = record m {
  process = none;
  exit_ch = none;
  pid = 0;
  active_profile = "";
  running_config = none;
  running_profile = none;
  started_at = 0;
  state = stopped;
}

module _ (w : World) (m₀ : CoreManager) (b : Bool) where
  -- After an error: no process, no rules, and the report that the error carries.
  pub record StartFailed (out : CoreRun) (e : RuntimeError) : Type 0 where
    pub core_is : forget_reports out.core ≡ forget_reports (cleared_core stopped m₀)
    pub rules_are : rules_asked out.calls ≡ false
    pub holes_are : early_signal out.calls ≡ b
    pub reports : Reports e
    pub start_report_is : out.core.last_start_report ≡ e.stage_report
    pub runtime_report_is : out.core.last_runtime_report ≡ e.stage_report

  -- A view of the manager is that of a start of `m₀`; the rules and the traffic are told.
  abbrev pub InPhase : (CoreManager → CoreManager) → Bool → CoreRun → Type 0
  InPhase view rules r =
      (forget_reports (view r.core) ≡ forget_reports (cleared_core starting m₀))
      × (rules_asked r.calls ≡ rules)
      × (early_signal r.calls ≡ b)

  abbrev pub Blank : CoreRun → Type 0
  Blank = InPhase (λ m. m) false

  abbrev Sidecar : CoreRun → Type 0
  Sidecar = InPhase (λ m. no_xray w m) false

  abbrev Up : Bool → CoreRun → Type 0
  Up rules r = InPhase (λ m. no_xray w (no_process m)) rules r × IsTracked r.core

  fail_stage-StartFailed :
      (Q : CoreRun → Type 0) (name layer code err : String) (rolled : Bool) (r : CoreRun)
      → forget_reports r.core ≡ forget_reports (cleared_core stopped m₀)
      → rules_asked r.calls ≡ false
      → early_signal r.calls ≡ b
      → Post Q StartFailed (fail_stage w true name layer code err rolled r)
  fail_stage-StartFailed Q name layer code err rolled r h i j =
      fail_stage-Failing w StartFailed Q true name layer code err rolled r λ out e f. record {
        core_is = f.core_is ∙ h;
        rules_are = ap rules_asked f.calls_are ∙ i;
        holes_are = ap early_signal f.calls_are ∙ j;
        reports = f.reports;
        start_report_is = f.last_start_is;
        runtime_report_is = f.last_runtime_is;
      }

  halt-StartFailed :
      (Q : CoreRun → Type 0) (name layer code : String) (f : Fault) (r : CoreRun)
      → Blank r
      → Post Q StartFailed (halt w name layer code f r)
  unfolding halt cleared_core
  halt-StartFailed Q name layer code f r h =
      fail_stage-StartFailed Q name layer code f.text false (in_state stopped r)
        (ap (λ (m : CoreManager). record m { state = stopped }) h.0) h.1 h.2

  halt_with_xray-StartFailed :
      (Q : CoreRun → Type 0) (name layer code : String) (rolled : Bool) (f : Fault) (r : CoreRun)
      → Sidecar r
      → Post Q StartFailed (halt_with_xray w name layer code rolled f r)
  unfolding halt_with_xray cleared_core
  halt_with_xray-StartFailed Q name layer code rolled f r h =
      let q = stop_xray_sidecar-Quiet w r in
      fail_stage-StartFailed Q name layer code f.text rolled
        (in_state stopped (stop_xray_sidecar w r).0)
        (ap (λ (m : CoreManager). forget_reports (record m { state = stopped })) q.core_is
          ∙ ap (λ (m : CoreManager). record m { state = stopped }) h.0)
        (q.rules_are ∙ h.1) (q.holes_are h.1 ∙ h.2)

  cleaned-Up :
      (cleanup rules : Bool) (r : CoreRun)
      → Up rules r
      → (rules ≡ true → cleanup ≡ true)
      → Up false (if cleanup then tell cleans_rules r else r)
  unfolding rules_asked early_signal
  cleaned-Up true rules r h i = ((h.0.0, refl, h.0.2), h.1)
  cleaned-Up false false r h i = h
  cleaned-Up false true r h i = absurd (cc (i refl))

  roll_back-StartFailed :
      (Q : CoreRun → Type 0) (signal : Signal) (name layer code text : String)
      (cleanup rules : Bool) (r : CoreRun)
      → Up rules r
      → (rules ≡ true → cleanup ≡ true)
      → Post Q StartFailed (roll_back w signal cleanup name layer code text r)
  unfolding roll_back rollback_started cleared_core rules_asked early_signal
  roll_back-StartFailed Q signal name layer code text cleanup rules r h i =
      let cleaned : CoreRun = if cleanup then tell cleans_rules r else r in
      let up = cleaned-Up cleanup rules r h i in
      let a = signal_and_wait-Quiet w signal cleaned in
      let forgotten : CoreRun = record (signal_and_wait w signal cleaned) {
        core = cleared_but_xray (signal_and_wait w signal cleaned).core;
      } in
      let c = stop_xray_sidecar-Quiet w (tell (removes core_pid_file) forgotten) in
      fail_stage-StartFailed Q name layer code text true (rollback_started w signal cleanup r)
        (ap forget_reports c.core_is
          ∙ ap (λ (m : CoreManager). forget_reports (cleared_core stopped m)) a.core_is
          ∙ ap (λ (m : CoreManager). cleared_core stopped m) up.0.0)
        (c.rules_are ∙ a.rules_are ∙ up.0.1)
        (c.holes_are (a.rules_are ∙ up.0.1) ∙ a.holes_are up.0.1 ∙ up.0.2)

  module _ (profile : NodeProfile) where
    start_xray_config-Post :
        (r : CoreRun) → Blank r → Post Blank StartFailed (start_xray_config w profile r)
    unfolding start_xray_config record_stage rules_asked early_signal
    start_xray_config-Post r h =
        if_cases (w.requires_xray profile)
          (try_call-Post w _ _ _ _ (λ f. halt-StartFailed Blank _ _ _ f _ h)
            (try_call-Post w _ _ _ _ (λ f. halt-StartFailed Blank _ _ _ f _ h) (done h)))
          (done h)

    start_config-Post : (r : CoreRun) → Blank r → Post Blank StartFailed (start_config w profile r)
    unfolding start_config record_stage rules_asked early_signal
    start_config-Post r h =
        try_call-Post w _ _ _ _ (λ f. halt-StartFailed Blank _ _ _ f _ h)
          (try_call-Post w _ _ _ _ (λ f. halt-StartFailed Blank _ _ _ f _ h) (done h))

    start_xray-Post : (r : CoreRun) → Blank r → Post Sidecar StartFailed (start_xray w profile r)
    unfolding start_xray record_stage rules_asked early_signal cleared_core
    start_xray-Post r h =
        let view = ap (λ (m : CoreManager). no_xray w m) h.0 in
        if_cases (w.requires_xray profile)
          (try_call-Post w _ _ _ _ (λ f. halt-StartFailed Sidecar _ _ _ f _ h)
            (try_call-Post w _ _ _ _
              (λ f. halt_with_xray-StartFailed Sidecar _ _ _ _ f _ (view, h.1, h.2))
              (done (view, h.1, h.2))))
          (done (view, h.1, h.2))

    start_core-Post :
        (r : CoreRun) → Sidecar r → Post (Up false) StartFailed (start_core w profile r)
    unfolding start_core record_stage rules_asked early_signal cleared_core
    start_core-Post r h =
        try_call-Post w _ _ _ _ (λ f. halt_with_xray-StartFailed (Up false) _ _ _ _ f _ h)
          (try_call-Post w _ _ _ _ (λ f. halt_with_xray-StartFailed (Up false) _ _ _ _ f _ h)
            (try_call-Post w _ _ _ _ (λ f. halt_with_xray-StartFailed (Up false) _ _ _ _ f _ h)
              (done ((ap (λ (m : CoreManager). no_process m) h.0, h.1, h.2), (refl, refl)))))

    waited-Post :
        (r : CoreRun) (o : Option (ListenerWaitSpec × String)) (good : Outcome)
        (bad : ListenerWaitSpec × String → Outcome)
        → Post (Up false) StartFailed good
        → ((x : ListenerWaitSpec × String) → Post (Up false) StartFailed (bad x))
        → Post (Up false) StartFailed (elim o [ none ↦ good | some x ↦ bad x ])
    waited-Post r none good bad h k = h
    waited-Post r (some x) good bad h k = k x

    Up-Keeps : (r out : CoreRun) (rules : Bool) → Up rules r → Keeps r out → Up rules out
    Up-Keeps r out rules h k = (
      (
        ap (λ (m : CoreManager). no_xray w (no_process m)) k.core_is ∙ h.0.0,
        k.rules_are ∙ h.0.1,
        k.holes_are ∙ h.0.2,
      ),
      IsTracked-Keeps r out k h.1,
    )

    start_listeners-Post :
        (r : CoreRun) → Up false r → Post (Up false) StartFailed (start_listeners w profile r)
    unfolding start_listeners
    start_listeners-Post r h =
        let waited = wait_runtime_listeners w true r.core.pid r in
        let up = Up-Keeps r waited.0 false h (wait_runtime_listeners-Keeps w true r.core.pid r) in
        waited-Post r waited.1 (continued waited.0) _ (done up) (λ x.
          roll_back-StartFailed (Up false) sigkill _ _ _ _ false false waited.0 up
            (λ e. absurd (cc e)))

    start_rules-Post :
        (r : CoreRun) → Up false r → Post (Up true) StartFailed (start_rules w profile r)
    unfolding start_rules record_stage rules_asked early_signal
    start_rules-Post r h =
        try_call-Post w _ _ _ _
          (λ f.
            roll_back-StartFailed (Up true) sigterm _ _ _ _ false false _ h (λ e. absurd (cc e)))
          (try_call-Post w _ _ _ _
            (λ f.
              roll_back-StartFailed (Up true) sigterm _ _ _ _ true true _
                ((h.0.0, refl, h.0.2), h.1) (λ e. refl))
            (try_call-Post w _ _ _ _
              (λ f.
                roll_back-StartFailed (Up true) sigterm _ _ _ _ true true _
                  ((h.0.0, refl, h.0.2), h.1) (λ e. refl))
              (done ((h.0.0, refl, h.0.2), h.1))))

    -- A runtime that serves the profile, with its rules in.
    pub record Launched (out : CoreRun) : Type 0 where
      pub state_is : out.core.state ≡ running
      pub config_is : out.core.config ≡ m₀.config
      pub process_is : IsTracked out.core
      pub active_is : out.core.active_profile ≡ address_of profile
      pub running_config_is : out.core.running_config ≡ clone_config_for_runtime w (some m₀.config)
      pub running_profile_is : out.core.running_profile ≡ some profile
      pub rules_are : rules_asked out.calls ≡ true
      pub holes_are : early_signal out.calls ≡ b
      pub status_is : out.core.last_start_report.status ≡ "ok"
      pub reports_are : out.core.last_runtime_report ≡ out.core.last_start_report

    start_commit-Post :
        (r : CoreRun) → Up true r → Post Launched StartFailed (start_commit w profile r)
    unfolding start_commit mark_running record_stage finish_ok rules_asked early_signal cleared_core
    start_commit-Post r h =
        let config = ap (λ (m : CoreManager). m.config) h.0.0 in
        done (record {
          state_is = refl;
          config_is = config;
          process_is = h.1;
          active_is = refl;
          running_config_is = ap (λ (c : CoreConfig). clone_config_for_runtime w (some c)) config;
          running_profile_is = refl;
          rules_are = h.0.1;
          holes_are = h.0.2;
          status_is = refl;
          reports_are = refl;
        })

    pub start_stages-Post :
        (r : CoreRun) → Blank r → Post Launched StartFailed (start_stages w profile r)
    unfolding start_stages
    start_stages-Post r h =
        and_then-Post {P = Blank} (start_xray_config w profile r) (start_xray_config-Post r h)
          λ r1 h1.
            and_then-Post {P = Blank} (start_config w profile r1) (start_config-Post r1 h1) λ r2 h2.
              and_then-Post {P = Sidecar} (start_xray w profile r2) (start_xray-Post r2 h2) λ r3 h3.
                and_then-Post {P = Up false} (start_core w profile r3) (start_core-Post r3 h3)
                  λ r4 h4.
                    and_then-Post {P = Up false} (start_listeners w profile r4)
                      (start_listeners-Post r4 h4)
                      λ r5 h5.
                        and_then-Post {P = Up true} (start_rules w profile r5)
                          (start_rules-Post r5 h5) start_commit-Post
