-- ===== src/Core/Stopping.antt =====
-- What a stop leaves (`Stop`, `RescueReset` and `ResetState` of manager.go).
use rknno_vpn.Prelude.{◌≡◌, refl, ap, ◌∙◌, Bool, true, false, ◌&&◌, ◌∷◌, some, arith}
use rknno_vpn.Recovery.Health.{stopped, stopping}
use rknno_vpn.Core.State.{
  Fault, CoreManager, cleans_rules, removes, active_file, World, CoreRun, tell, ask, cleared_core,
}
use rknno_vpn.Core.Process.{kill_process, try_text}
use rknno_vpn.Core.Stop.{end_core, tear_down, stop}
use rknno_vpn.Core.Quiet.{
  rules_asked, early_signal, Quiet, no_xray, kill_process_with_timeout-Quiet,
  stop_xray_sidecar-Quiet,
}

module _ (w : World) where
  end_core-Quiet : (r : CoreRun) → Quiet r.core r (end_core w r).0
  unfolding end_core kill_process try_text ask rules_asked early_signal
  end_core-Quiet r = ground (arith, kill_process_with_timeout-Quiet w 5000 r)

  record IsDown (r out : CoreRun) : Type 0 where
    core_is : out.core ≡ cleared_core stopped r.core
    rules_are : rules_asked out.calls ≡ false
    holes_are : early_signal out.calls ≡ early_signal r.calls

  tear_down-IsDown : (r : CoreRun) → IsDown r (tear_down w r).0
  unfolding tear_down try_text ask rules_asked early_signal cleared_core
  tear_down-IsDown r =
      let begun : CoreRun =
        tell cleans_rules
          (tell (removes active_file) (record r { core = record r.core { state = stopping } })) in
      let a = end_core-Quiet begun in
      let b = stop_xray_sidecar-Quiet w (end_core w begun).0 in
      let out : (rules_asked begun.calls ≡ false) = refl in
      record {
        core_is =
            ap (λ (m : CoreManager). cleared_core stopped m)
              (b.core_is ∙ ap (λ (m : CoreManager). no_xray w m) a.core_is);
        rules_are = b.rules_are ∙ a.rules_are;
        holes_are = b.holes_are (a.rules_are ∙ out) ∙ a.holes_are out;
      }

tear_down-error :
    (w : World) (r : CoreRun) (f : Fault)
    → w.fault (removes active_file ∷ r.calls) cleans_rules ≡ some f
    → (tear_down w r).1 ≡ some f.text
unfolding tear_down try_text ask
tear_down-error w r f e = rw e refl

and_false : (b : Bool) → (b && false) ≡ false
and_false true = refl
and_false false = refl

-- A stop, whatever the scripts and the processes answer, clears the manager and calls the cleanup of the
-- rules, and tells no process to end before that call. Where the cleanup fails, so that rules may be left
-- in, the stop goes on and returns that error.
pub stop_lem :
    (w : World) (r : CoreRun)
    → let out = stop w r in
      (out.0.core ≡ cleared_core stopped r.core)
      × (rules_asked out.0.calls ≡ false)
      × (early_signal out.0.calls ≡ early_signal r.calls)
      × ((f : Fault)
          → w.fault (removes active_file ∷ r.calls) cleans_rules ≡ some f
          → out.1 ≡ some f.text)
unfolding stop
stop_lem w r =
    let h = tear_down-IsDown w r in
    rw (and_false _) (h.core_is, h.rules_are, h.holes_are, λ f e. tear_down-error w r f e)
