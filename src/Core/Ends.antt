-- ===== src/Core/Ends.antt =====
-- How a call of the manager ends: rules for its stages, and what a failed stage reports (manager.go).
use rknno_vpn.Prelude.{
  ℕ, ◌≡◌, refl, sym, ap, ◌∙◌, String, Bool, true, false, List, [], ◌∷◌, Option, none, some,
  if◌then◌else◌, concat, itoa,
}
use rknno_vpn.Core.Report.{empty_report, add_stage}
use rknno_vpn.Core.State.{
  CoreManager, CoreCall, waits_for_port, Fault, World, RuntimeError, CoreRun, Outcome, continued,
  failed, and_then, tell, try_call, record_stage, fail_stage, runtime_error_with_report,
}
use rknno_vpn.Core.Process.{
  ListenerWaitSpec, runtime_listener_waits, wait_ports, wait_runtime_listeners,
}
use rknno_vpn.Core.Quiet.{rules_asked, early_signal}

-- The manager without its reports.
abbrev pub forget_reports : CoreManager → CoreManager
forget_reports m = record m { last_start_report = empty_report; last_runtime_report = empty_report }

abbrev pub Holds : (CoreRun → Type 0) → (CoreRun → RuntimeError → Type 0) → Outcome → Type 0
Holds Q E (continued r) = Q r
Holds Q E (failed r e) = E r e

-- `Q` of a run that goes on, `E` of one that ends with an error.
pub record Post (Q : CoreRun → Type 0) (E : CoreRun → RuntimeError → Type 0) (out : Outcome)
    : Type 0 where
  pub holds : Holds Q E out

module _ {E : CoreRun → RuntimeError → Type 0} where
  pub done : {Q : CoreRun → Type 0} {r : CoreRun} → Q r → Post Q E (continued r)
  done h = record { holds = h }

  pub and_then-Post :
      {P Q : CoreRun → Type 0} {k : CoreRun → Outcome} (out : Outcome)
      → Post P E out
      → ((r : CoreRun) → P r → Post Q E (k r))
      → Post Q E (and_then out k)
  and_then-Post (continued r) h f = f r h.holds
  and_then-Post (failed r e) h f = record { holds = h.holds }

  fault_cases :
      {Q : CoreRun → Type 0} (o : Option Fault) (bad : Fault → Outcome) (good : Outcome)
      → ((f : Fault) → Post Q E (bad f))
      → Post Q E good
      → Post Q E (elim o [ none ↦ good | some f ↦ bad f ])
  fault_cases none bad good h k = k
  fault_cases (some f) bad good h k = h f

  pub if_cases :
      {Q : CoreRun → Type 0} {x y : Outcome} (b : Bool)
      → Post Q E x
      → Post Q E y
      → Post Q E (if b then x else y)
  if_cases true h k = h
  if_cases false h k = k

  pub try_call-Post :
      {Q : CoreRun → Type 0} (w : World) (c : CoreCall) (bad : Fault → CoreRun → Outcome)
      (good : CoreRun → Outcome) (r : CoreRun)
      → ((f : Fault) → Post Q E (bad f (tell c r)))
      → Post Q E (good (tell c r))
      → Post Q E (try_call w c bad good r)
  unfolding try_call
  try_call-Post w c bad good r h k =
      fault_cases (w.fault r.calls c) (λ f. bad f (tell c r)) (good (tell c r)) h k

-- What the report of an error says of it.
pub record Reports (e : RuntimeError) : Type 0 where
  pub status_is : e.stage_report.status ≡ "failed"
  pub code_is : e.stage_report.last_code ≡ e.code
  pub rollback_is : e.stage_report.rollback_applied ≡ e.rollback_applied

module _ (w : World) where
  -- The error of a failed stage, and what the stage leaves of the run.
  pub record Failing (starts rolled : Bool) (code : String) (r out : CoreRun) (e : RuntimeError)
      : Type 0 where
    pub reports : Reports e
    pub last_runtime_is : out.core.last_runtime_report ≡ e.stage_report
    pub last_start_is :
        out.core.last_start_report ≡ (if starts then e.stage_report else r.core.last_start_report)
    pub core_is : forget_reports out.core ≡ forget_reports r.core
    pub calls_are : out.calls ≡ r.calls
    pub code_is : e.code ≡ code
    pub rollback_is : e.rollback_applied ≡ rolled
    pub preserved_is : e.runtime_preserved ≡ false

  pub fail_stage-Failing :
      (E : CoreRun → RuntimeError → Type 0) (Q : CoreRun → Type 0) (starts : Bool)
      (name layer code err : String) (rolled : Bool) (r : CoreRun)
      → ((out : CoreRun) (e : RuntimeError) → Failing starts rolled code r out e → E out e)
      → Post Q E (fail_stage w starts name layer code err rolled r)
  unfolding fail_stage record_stage add_stage runtime_error_with_report
  fail_stage-Failing E Q starts name layer code err rolled r k = record {
    holds = k _ _ (record {
      reports = record { status_is = refl; code_is = refl; rollback_is = refl };
      last_runtime_is = refl;
      last_start_is = refl;
      core_is = refl;
      calls_are = refl;
      code_is = refl;
      rollback_is = refl;
      preserved_is = refl;
    });
  }

-- A run that leaves the manager but for its reports, the rules, and the traffic.
pub record Keeps (r out : CoreRun) : Type 0 where
  pub core_is : forget_reports out.core ≡ forget_reports r.core
  pub rules_are : rules_asked out.calls ≡ rules_asked r.calls
  pub holes_are : early_signal out.calls ≡ early_signal r.calls
  pub status_is : out.report.status ≡ r.report.status

-- The process of the state is the one that is waited for.
abbrev pub IsTracked : CoreManager → Type 0
IsTracked m = (m.process ≡ some m.pid) × (m.exit_ch ≡ some m.pid)

pub IsTracked-Keeps : (r out : CoreRun) → Keeps r out → IsTracked r.core → IsTracked out.core
IsTracked-Keeps r out k h = (
  ap (λ (m : CoreManager). m.process) k.core_is
      ∙ h.0
      ∙ ap (λ (m : CoreManager). some m.pid) (sym k.core_is),
  ap (λ (m : CoreManager). m.exit_ch) k.core_is
      ∙ h.1
      ∙ ap (λ (m : CoreManager). some m.pid) (sym k.core_is),
)

wait_cases :
    {A : Type 0} (G : CoreRun × Option A → Type 0) (o : Option Fault)
    (bad : Fault → CoreRun × Option A) (good : CoreRun × Option A)
    → ((f : Fault) → G (bad f))
    → G good
    → G (elim o [ none ↦ good | some f ↦ bad f ])
wait_cases G none bad good h k = k
wait_cases G (some f) bad good h k = h f

module _ (w : World) (starts : Bool) (pid : ℕ) where
  wait_ports-Keeps :
      (specs : List ListenerWaitSpec) (r : CoreRun) → Keeps r (wait_ports w starts pid specs r).0
  unfolding wait_ports record_stage add_stage rules_asked early_signal
  wait_ports-Keeps [] r = record {
    core_is = refl;
    rules_are = refl;
    holes_are = refl;
    status_is = refl;
  }
  wait_ports-Keeps (spec ∷ specs) r =
      let call = waits_for_port spec.port spec.timeout pid in
      let opened =
        record_stage w starts spec.stage "ok" "" (concat "port=" (itoa spec.port)) false
          (tell call r) in
      let ih = wait_ports-Keeps specs opened in
      wait_cases (λ (out : CoreRun × Option (ListenerWaitSpec × String)). Keeps r out.0)
        (w.fault r.calls call) _ _
        (λ f. record { core_is = refl; rules_are = refl; holes_are = refl; status_is = refl })
        (record {
          core_is = ih.core_is;
          rules_are = ih.rules_are;
          holes_are = ih.holes_are;
          status_is = ih.status_is;
        })

  pub wait_runtime_listeners-Keeps :
      (r : CoreRun) → Keeps r (wait_runtime_listeners w starts pid r).0
  unfolding wait_runtime_listeners
  wait_runtime_listeners-Keeps r = wait_ports-Keeps (runtime_listener_waits r.core.config) r
