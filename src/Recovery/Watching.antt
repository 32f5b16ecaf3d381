-- ===== src/Recovery/Watching.antt =====
-- The monitor over many cycles: when the core is marked degraded, and when restored (monitor.go).
use rknno_vpn.Prelude.{
  ℕ, ◌+◌, ◌<◌, Bool, true, false, not, ◌||◌, ◌&&◌, List, [], ◌∷◌, leb, length, if◌then◌else◌, ◌≡◌,
  refl, arith, Bool-cases, inl, inr, suc, sym, ◌∙◌, ap,
}
use rknno_vpn.Runtime.Types.{Time}
use rknno_vpn.Recovery.Health.{
  CoreState, running, degraded, Checks, HealthMonitor, health_result, run_once, tick, Action,
  set_state, calls_degraded, calls_restored,
}

-- The state of the core after the actions of a cycle.
abbrev pub state_after : CoreState → List Action → CoreState
state_after state [] = state
state_after state (set_state s ∷ actions) = state_after s actions
state_after state (calls_degraded ∷ actions) = state_after state actions
state_after state (calls_restored ∷ actions) = state_after state actions

-- Cycles one after another, where nobody but the monitor changes the state of the core.
abbrev pub watch : CoreState → HealthMonitor → List (Time × Checks) → CoreState × HealthMonitor
watch state h [] = (state, h)
watch state h ((now, checks) ∷ cycles) =
    let next = tick state now checks h in watch (state_after state next.1) next.0 cycles

abbrev pub passes : Bool → Checks → Bool
passes dns_hard checks =
    checks.singbox_alive.pass
    && checks.tproxy_port.pass
    && checks.iptables.pass
    && checks.routing.pass
    && (not dns_hard || (checks.dns_listener.pass && checks.dns.pass))

abbrev pub all_fail : Bool → List (Time × Checks) → Bool
all_fail hard [] = true
all_fail hard ((now, checks) ∷ cycles) = not (passes hard checks) && all_fail hard cycles

-- The number of cycles since the last that passed.
abbrev pub failed_since : Bool → List (Time × Checks) → ℕ
failed_since hard [] = 0
failed_since hard ((now, checks) ∷ cycles) =
    let rest = failed_since hard cycles in
    if all_fail hard ((now, checks) ∷ cycles) then suc (length cycles) else rest

abbrev pub state_of : ℕ → ℕ → CoreState
state_of threshold failures = if leb threshold failures then degraded else running

record Watched (h : HealthMonitor) (threshold : ℕ) (hard : Bool) (failures : ℕ) : Type 0 where
  pub threshold_is : h.threshold ≡ threshold
  pub hard_is : h.dns_hard ≡ hard
  pub failures_are : h.failures ≡ failures

overall-passes :
    (hard : Bool) (now : Time) (checks : Checks)
    → (health_result hard now checks).overall ≡ passes hard checks
unfolding health_result
overall-passes hard now checks = ground arith

tick-fail :
    (h : HealthMonitor) (threshold : ℕ) (hard : Bool) (k : ℕ) (now : Time) (checks : Checks)
    → Watched h threshold hard k
    → passes hard checks ≡ false
    → let next = tick (state_of threshold k) now checks h in
      (Watched next.0 threshold hard (k + 1))
      × (state_after (state_of threshold k) next.1 ≡ state_of threshold (k + 1))
unfolding tick run_once
tick-fail h threshold hard k now checks w e =
    let o = overall-passes hard now checks ∙ e in
    let a = w.threshold_is in
    let b = w.hard_is in
    let c = w.failures_are in
    (
      record {
        threshold_is = ground (arith, o, a, b, c);
        hard_is = ground (arith, o, a, b, c);
        failures_are = ground (arith, o, a, b, c);
      },
      ground (arith, o, a, b, c),
    )

tick-pass :
    (h : HealthMonitor) (threshold : ℕ) (hard : Bool) (k : ℕ) (now : Time) (checks : Checks)
    → 0 < threshold
    → Watched h threshold hard k
    → passes hard checks ≡ true
    → let next = tick (state_of threshold k) now checks h in
      (Watched next.0 threshold hard 0)
      × (state_after (state_of threshold k) next.1 ≡ state_of threshold 0)
unfolding tick run_once
tick-pass h threshold hard k now checks p w e =
    let o = overall-passes hard now checks ∙ e in
    let a = w.threshold_is in
    let b = w.hard_is in
    let c = w.failures_are in
    (
      record {
        threshold_is = ground (arith, o, a, b, c);
        hard_is = ground (arith, o, a, b, c);
        failures_are = ground (arith, o, a, b, c);
      },
      ground (arith, o, a, b, c, p),
    )

failed_since-all :
    (hard : Bool) (cycles : List (Time × Checks))
    → all_fail hard cycles ≡ true
    → failed_since hard cycles ≡ length cycles
failed_since-all hard [] e = refl
failed_since-all hard ((now, checks) ∷ cycles) e = rw e refl

abbrev counted : Bool → ℕ → List (Time × Checks) → ℕ
counted hard k cycles = if all_fail hard cycles then k + length cycles else failed_since hard cycles

counted-zero :
    (hard : Bool) (cycles : List (Time × Checks)) → counted hard 0 cycles ≡ failed_since hard cycles
counted-zero hard cycles = let all = failed_since-all hard cycles in ground (arith, all)

counted-fail :
    (hard : Bool) (k : ℕ) (now : Time) (checks : Checks) (cycles : List (Time × Checks))
    → passes hard checks ≡ false
    → counted hard k ((now, checks) ∷ cycles) ≡ counted hard (k + 1) cycles
counted-fail hard k now checks cycles e = elim (Bool-cases (all_fail hard cycles)) [
  | inl f ↦ rw (e, f) (omega arith)
  | inr f ↦ rw (e, f) refl
]

counted-pass :
    (hard : Bool) (k : ℕ) (now : Time) (checks : Checks) (cycles : List (Time × Checks))
    → passes hard checks ≡ true
    → counted hard k ((now, checks) ∷ cycles) ≡ counted hard 0 cycles
counted-pass hard k now checks cycles e = rw e (sym (counted-zero hard cycles))

watch-count :
    (cycles : List (Time × Checks)) (s : CoreState) (h : HealthMonitor) (threshold : ℕ)
    (hard : Bool) (k : ℕ)
    → 0 < threshold
    → Watched h threshold hard k
    → s ≡ state_of threshold k
    → let n = counted hard k cycles in
      let after = watch s h cycles in (after.0 ≡ state_of threshold n) × (after.1.failures ≡ n)
watch-count [] s h threshold hard k p w e =
    (e ∙ ap (state_of threshold) (omega arith), w.failures_are ∙ omega arith)
watch-count ((now, checks) ∷ cycles) s h threshold hard k p w e =
    elim (Bool-cases (passes hard checks)) [
      | inl f ↦
          let t = tick-pass h threshold hard k now checks p w f in
          rw (counted-pass hard k now checks cycles f, e)
            (watch-count cycles _ _ threshold hard 0 p t.0 t.1)
      | inr f ↦
          let t = tick-fail h threshold hard k now checks w f in
          rw (counted-fail hard k now checks cycles f, e)
            (watch-count cycles _ _ threshold hard (k + 1) p t.0 t.1)
    ]

-- While nobody else changes the state of a running core, after any cycles of a monitor with no
-- failures yet and a threshold above 0, the failures counted are those since the last cycle that
-- passed, and the core is degraded if they reach the threshold, and running if not. A cycle passes
-- if the four hard checks do and, where DNS is hard, the two of DNS.
pub watch_lem :
    (h : HealthMonitor) (cycles : List (Time × Checks))
    → 0 < h.threshold
    → h.failures ≡ 0
    → let n = failed_since h.dns_hard cycles in
      let after = watch running h cycles in
      (after.0 ≡ (if leb h.threshold n then degraded else running)) × (after.1.failures ≡ n)
watch_lem h cycles p z =
    let w : Watched h h.threshold h.dns_hard 0 = record {
      threshold_is = refl;
      hard_is = refl;
      failures_are = z;
    } in
    rw⁻¹ (counted-zero h.dns_hard cycles)
      (watch-count cycles running h h.threshold h.dns_hard 0 p w (ground (arith, p)))
