-- ===== src/Runtime/Laws/Phases.antt =====
-- What a phase computed from a health snapshot says (orchestrator.go, phaseFromHealth).
use rknno_vpn.Prelude.{
  String, Bool, true, false, ◌≡◌, ◌≢◌, ◌⊎◌, inl, inr, refl, Option, none, some, List, [], ◌∷◌, All,
  lookup, str_eq, arith, Bool-cases, ◌↔◌, subst,
}
use mathlib.Core.Option.{some-injective}
use rknno_vpn.Runtime.Types.{
  Phase, HealthSnapshot, is_zero, is_healthy, is_operational, starting, config_checked,
  core_spawned, core_listening, rules_applied, dns_applied, outbound_checked, healthy, degraded,
  failed,
}
use rknno_vpn.Runtime.Phase.{code_phases, code_phase, faulty_phase, phase_from_health}

-- A phase that the table of the codes has: one that a start goes through, or failed.
abbrev pub is_coded : Phase → Bool
is_coded starting = true
is_coded config_checked = true
is_coded core_spawned = true
is_coded core_listening = true
is_coded rules_applied = true
is_coded dns_applied = true
is_coded outbound_checked = true
is_coded failed = true
is_coded _ = false

lookup-All {ℓ} :
    {V : Type 0} (P : V → Type ℓ) (k : String) (m : List (String × V)) (v : V)
    → All (λ (e : String × V). P e.1) m
    → lookup k m ≡ some v
    → P v
unfolding lookup
lookup-All P k [] v h e = cc
lookup-All P k ((j, w) ∷ m) v h e = elim (Bool-cases (str_eq j k)) [
  | inl same ↦ subst P (some-injective w v (rw same at e)) h.0
  | inr other ↦ lookup-All P k m v h.1 (rw other at e)
]

pub code_phase-is_coded : (code : String) (p : Phase) → code_phase code ≡ some p → is_coded p ≡ true
unfolding code_phase
code_phase-is_coded code p e =
    lookup-All (λ q. is_coded q ≡ true) code code_phases p (ground arith) e

-- A checked health that is not operational gives a phase of the table, the fallback (where
-- the core or the routing is not ready), or a degraded one (where both are).
abbrev pub IsFaulty : HealthSnapshot → Phase → Phase → Type 0
IsFaulty health fallback p =
    (is_coded p ≡ true)
    ⊎ ((p ≡ fallback) × (is_healthy health ≡ false))
    ⊎ ((p ≡ degraded) × (is_healthy health ≡ true))

faulty_phase-IsFaulty :
    (health : HealthSnapshot) (fallback : Phase) (found : Option Phase)
    → code_phase health.last_code ≡ found
    → IsFaulty health fallback (faulty_phase health fallback)
unfolding faulty_phase
faulty_phase-IsFaulty health fallback none e = ground arith
faulty_phase-IsFaulty health fallback (some p) e =
    ground (arith, code_phase-is_coded health.last_code p e)

-- The phase of a health: the fallback if the health was never checked, healthy if it is checked and
-- operational, and else a phase of the table, the fallback where the core or the routing is not ready,
-- or degraded where both are.
pub phase_from_health_cases :
    (health : HealthSnapshot) (fallback : Phase)
    → let p = phase_from_health health fallback in
      ((is_zero health.checked_at ≡ true) × (p ≡ fallback))
      ⊎ ((is_zero health.checked_at ≡ false) × (is_operational health ≡ true) × (p ≡ healthy))
      ⊎ ((is_zero health.checked_at ≡ false)
          × (is_operational health ≡ false)
          × IsFaulty health fallback p)
unfolding phase_from_health
phase_from_health_cases health fallback =
    ground (arith, faulty_phase-IsFaulty health fallback (code_phase health.last_code) refl)

-- With a fallback other than healthy, the phase is healthy exactly for a checked health whose core,
-- routing, DNS and egress are all ready.
pub healthy_iff_operational :
    (health : HealthSnapshot) (fallback : Phase)
    → fallback ≢ healthy
    → (phase_from_health health fallback ≡ healthy)
      ↔ ((is_zero health.checked_at ≡ false) × (is_operational health ≡ true))
healthy_iff_operational health fallback other = (
  λ h. ground (arith, phase_from_health_cases health fallback),
  λ h. ground (arith, phase_from_health_cases health fallback),
)

-- The phase that a start ends in behind an error of a code: the one of the table, or failed.
abbrev pub phase_of_code : String → Phase
phase_of_code code = elim (code_phase code) [ none ↦ failed | some phase ↦ phase ]
