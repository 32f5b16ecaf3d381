-- ===== src/Runtime/Phase.antt =====
-- The phase that a health snapshot stands for (orchestrator.go, phaseFromHealth).
use rknno_vpn.Prelude.{String, List, [], ◌∷◌, Option, none, some, lookup, not, if◌then◌else◌}
use rknno_vpn.Runtime.Types.{
  Phase, HealthSnapshot, is_zero, is_healthy, is_operational, starting, config_checked,
  core_spawned, core_listening, rules_applied, dns_applied, outbound_checked, healthy, degraded,
  failed,
}

-- The cases of the `switch health.LastCode`; no two have the same code.
abbrev pub code_phases : List (String × Phase)
code_phases =
    ("TPROXY_PORT_DOWN", core_spawned)
    ∷ ("DNS_LISTENER_DOWN", core_listening)
    ∷ ("API_PORT_DOWN", core_listening)
    ∷ ("RULES_NOT_APPLIED", core_listening)
    ∷ ("NETSTACK_CLEANUP_FAILED", core_listening)
    ∷ ("NETSTACK_VERIFY_FAILED", core_listening)
    ∷ ("ROUTING_CHECK_FAILED", core_listening)
    ∷ ("ROUTING_V4_MISSING", core_listening)
    ∷ ("ROUTING_V6_MISSING", core_listening)
    ∷ ("ROUTING_NOT_APPLIED", core_listening)
    ∷ ("DNS_APPLY_FAILED", rules_applied)
    ∷ ("DNS_LOOKUP_TIMEOUT", dns_applied)
    ∷ ("DNS_EMPTY_RESPONSE", dns_applied)
    ∷ ("DNS_LOOKUP_FAILED", dns_applied)
    ∷ ("PROXY_DNS_UNAVAILABLE", dns_applied)
    ∷ ("OUTBOUND_URL_FAILED", outbound_checked)
    ∷ ("OPERATIONAL_DEGRADED", outbound_checked)
    ∷ ("CORE_PID_MISSING", failed)
    ∷ ("CORE_PID_LOOKUP_FAILED", failed)
    ∷ ("CORE_PROCESS_DEAD", failed)
    ∷ ("CORE_LOG_OPEN_FAILED", failed)
    ∷ ("CORE_SPAWN_FAILED", failed)
    ∷ ("CONFIG_RENDER_FAILED", starting)
    ∷ ("CONFIG_CHECK_FAILED", config_checked)
    ∷ []

unfoldable pub code_phase : String → Option Phase
unfolding lookup
code_phase code = lookup code code_phases

-- The part of `phaseFromHealth` behind the operational test.
unfoldable pub faulty_phase : HealthSnapshot → Phase → Phase
faulty_phase health fallback = elim (code_phase health.last_code) [
  | some phase ↦ phase
  | none ↦ if not (is_healthy health) then fallback else degraded
]

unfoldable pub phase_from_health : HealthSnapshot → Phase → Phase
phase_from_health health fallback =
    if is_zero health.checked_at
    then fallback
    else if is_operational health
    then healthy
    else faulty_phase health fallback
