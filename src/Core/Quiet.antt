-- ===== src/Core/Quiet.antt =====
-- What the calls to processes leave alone: the rules, the report, and all of the manager but the
-- fields that they set (manager.go, xray_sidecar.go).
use rknno_vpn.Prelude.{
  ℕ, ◌≡◌, refl, Bool, true, false, ◌||◌, List, [], ◌∷◌, Option, none, some, arith, zero, suc,
}
use rknno_vpn.Core.State.{
  CoreManager, CoreCall, CoreFile, Signal, applies_rules, cleans_rules, World, CoreRun, ask,
  renders_core, renders_xray, checks_core, checks_xray, prepares_core, opens_core_log, spawns_core,
  spawns_xray, waits_for_port, verifies_owners, verifies_rules, signals, awaits_exit,
  kills_tracked_core, kills_tracked_xray, removes, writes_pid, renames, marks_active,
}
use rknno_vpn.Core.Process.{
  end_process, kill_process_with_timeout, kill_process_with_wait, try_text, stop_xray_sidecar,
  spawn_sing_box, signal_and_wait,
}

-- Whether the newest call about the rules is one that applies them, and not one of the cleanup. What the
-- two calls answer is not asked: behind a cleanup that failed the rules may still be in.
unfoldable pub rules_asked : List CoreCall → Bool
rules_asked [] = false
rules_asked (applies_rules ∷ calls) = true
rules_asked (cleans_rules ∷ calls) = false
rules_asked (renders_core c p f ∷ calls) = rules_asked calls
rules_asked (renders_xray p ∷ calls) = rules_asked calls
rules_asked (checks_core f ∷ calls) = rules_asked calls
rules_asked (checks_xray ∷ calls) = rules_asked calls
rules_asked (prepares_core ∷ calls) = rules_asked calls
rules_asked (opens_core_log ∷ calls) = rules_asked calls
rules_asked (spawns_core f ∷ calls) = rules_asked calls
rules_asked (spawns_xray ∷ calls) = rules_asked calls
rules_asked (waits_for_port p t n ∷ calls) = rules_asked calls
rules_asked (verifies_owners ∷ calls) = rules_asked calls
rules_asked (verifies_rules ∷ calls) = rules_asked calls
rules_asked (signals s p ∷ calls) = rules_asked calls
rules_asked (awaits_exit p t ∷ calls) = rules_asked calls
rules_asked (kills_tracked_core ∷ calls) = rules_asked calls
rules_asked (kills_tracked_xray ∷ calls) = rules_asked calls
rules_asked (removes f ∷ calls) = rules_asked calls
rules_asked (writes_pid f p ∷ calls) = rules_asked calls
rules_asked (renames f g ∷ calls) = rules_asked calls
rules_asked (marks_active ∷ calls) = rules_asked calls

-- Whether a process was told to end with no call of the cleanup since the rules were last applied, so that
-- traffic went to a dead socket.
unfoldable pub early_signal : List CoreCall → Bool
unfolding rules_asked
early_signal [] = false
early_signal (applies_rules ∷ calls) = early_signal calls
early_signal (cleans_rules ∷ calls) = early_signal calls
early_signal (renders_core c p f ∷ calls) = early_signal calls
early_signal (renders_xray p ∷ calls) = early_signal calls
early_signal (checks_core f ∷ calls) = early_signal calls
early_signal (checks_xray ∷ calls) = early_signal calls
early_signal (prepares_core ∷ calls) = early_signal calls
early_signal (opens_core_log ∷ calls) = early_signal calls
early_signal (spawns_core f ∷ calls) = early_signal calls
early_signal (spawns_xray ∷ calls) = early_signal calls
early_signal (waits_for_port p t n ∷ calls) = early_signal calls
early_signal (verifies_owners ∷ calls) = early_signal calls
early_signal (verifies_rules ∷ calls) = early_signal calls
early_signal (signals s p ∷ calls) = rules_asked calls || early_signal calls
early_signal (awaits_exit p t ∷ calls) = early_signal calls
early_signal (kills_tracked_core ∷ calls) = rules_asked calls || early_signal calls
early_signal (kills_tracked_xray ∷ calls) = rules_asked calls || early_signal calls
early_signal (removes f ∷ calls) = early_signal calls
early_signal (writes_pid f p ∷ calls) = early_signal calls
early_signal (renames f g ∷ calls) = early_signal calls
early_signal (marks_active ∷ calls) = early_signal calls

-- The one run differs from the other by its manager, its calls and its clock; the manager is given.
pub record Quiet (m : CoreManager) (r r' : CoreRun) : Type 0 where
  pub core_is : r'.core ≡ m
  pub report_is : r'.report ≡ r.report
  pub rules_are : rules_asked r'.calls ≡ rules_asked r.calls
  pub holes_are : rules_asked r.calls ≡ false → early_signal r'.calls ≡ early_signal r.calls

module _ (w : World) where
  pub end_process-Quiet :
      (pid grace : ℕ) (r : CoreRun) → Quiet r.core r (end_process w pid grace r).0
  unfolding end_process rules_asked early_signal
  end_process-Quiet pid grace r = ground arith

  pub kill_process_with_timeout-Quiet :
      (grace : ℕ) (r : CoreRun) → Quiet r.core r (kill_process_with_timeout w grace r).0
  unfolding kill_process_with_timeout end_process rules_asked early_signal
  kill_process_with_timeout-Quiet zero r = ground arith
  kill_process_with_timeout-Quiet (suc n) r = ground arith

  pub kill_process_with_wait-Quiet :
      (proc ch : Option ℕ) (r : CoreRun) → Quiet r.core r (kill_process_with_wait w proc ch r).0
  unfolding kill_process_with_wait
  kill_process_with_wait-Quiet none ch r = record {
    core_is = refl;
    report_is = refl;
    rules_are = refl;
    holes_are = λ _. refl;
  }
  kill_process_with_wait-Quiet (some p) none r = record {
    core_is = refl;
    report_is = refl;
    rules_are = refl;
    holes_are = λ _. refl;
  }
  kill_process_with_wait-Quiet (some p) (some ch) r = end_process-Quiet p 5000 r

  -- The manager without its sidecar.
  abbrev pub no_xray : CoreManager → CoreManager
  no_xray m = record m { xray_process = none; xray_exit_ch = none; xray_pid = 0 }

  pub stop_xray_sidecar-Quiet : (r : CoreRun) → Quiet (no_xray r.core) r (stop_xray_sidecar w r).0
  unfolding stop_xray_sidecar try_text ask rules_asked early_signal
  stop_xray_sidecar-Quiet r =
      ground (arith, kill_process_with_wait-Quiet r.core.xray_process r.core.xray_exit_ch r)

  pub signal_and_wait-Quiet :
      (signal : Signal) (r : CoreRun) → Quiet r.core r (signal_and_wait w signal r)
  unfolding signal_and_wait rules_asked early_signal
  signal_and_wait-Quiet signal r = ground arith

  pub spawn_sing_box-Quiet :
      (file : CoreFile) (r : CoreRun) → Quiet r.core r (spawn_sing_box w file r).0
  unfolding spawn_sing_box rules_asked early_signal
  spawn_sing_box-Quiet file r = ground arith
