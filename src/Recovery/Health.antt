-- ===== src/Recovery/Health.antt =====
-- The health monitor (monitor.go). A check is its result, and a callback whether it is installed. A
-- cycle reads the state of the core once and gives its own actions in their order.
use rknno_vpn.Prelude.{
  ℕ, String, ◌+◌, Bool, true, false, not, ◌&&◌, List, [], ◌∷◌, ◌++◌, Option, none, some, leb, ltb,
  if◌then◌else◌,
}
use rknno_vpn.Runtime.Types.{Time}

-- `State` of the core (daemon/internal/core/manager.go).
pub data CoreState : Type 0 where
  stopped starting running degraded rescue stopping : CoreState

pub record CheckResult : Type 0 where
  pub pass : Bool
  pub detail : String
  pub code : String

-- The map of the results, which has these keys.
pub record Checks : Type 0 where
  pub singbox_alive : CheckResult
  pub tproxy_port : CheckResult
  pub iptables : CheckResult
  pub routing : CheckResult
  pub dns_listener : CheckResult
  pub dns : CheckResult

pub record HealthResult : Type 0 where
  pub timestamp : Time
  pub overall : Bool
  pub checks : Checks

pub record HealthMonitor : Type 0 where
  pub threshold : ℕ
  pub dns_hard : Bool
  pub on_degraded : Bool
  pub on_restored : Bool
  pub failures : ℕ
  pub last_result : Option HealthResult
  pub is_started : Bool

-- What a cycle does outside the monitor.
pub data Action : Type 0 where
  set_state : CoreState → Action
  calls_degraded calls_restored : Action

abbrev pub is_degraded : CoreState → Bool
is_degraded degraded = true
is_degraded _ = false

abbrev pub is_running : CoreState → Bool
is_running running = true
is_running _ = false

-- `NewHealthMonitor`: a threshold below 1 is 3.
unfoldable pub new_health_monitor : ℕ → HealthMonitor
new_health_monitor threshold = record {
  threshold = if ltb threshold 1 then 3 else threshold;
  dns_hard = false;
  on_degraded = false;
  on_restored = false;
  failures = 0;
  last_result = none;
  is_started = false;
}

-- `Start`: nothing where the loop already runs.
unfoldable pub start : HealthMonitor → HealthMonitor
start h = if h.is_started then h else record h { failures = 0; is_started = true }

unfoldable pub stop : HealthMonitor → HealthMonitor
stop h = record h { is_started = false }

unfoldable pub clear : HealthMonitor → HealthMonitor
clear h = record h { failures = 0; last_result = none }

-- The result that `RunOnce` makes of its checks.
unfoldable pub health_result : Bool → Time → Checks → HealthResult
health_result dns_hard now checks =
    let hard =
      checks.singbox_alive.pass && checks.tproxy_port.pass && checks.iptables.pass
      && checks.routing.pass in
    record {
      timestamp = now;
      overall = if dns_hard then hard && checks.dns_listener.pass && checks.dns.pass else hard;
      checks = checks;
    }

unfoldable pub run_once : Time → Checks → HealthMonitor → HealthMonitor × HealthResult
unfolding health_result
run_once now checks h =
    let result = health_result h.dns_hard now checks in
    (record h { last_result = some result }, result)

-- `tick`, where `state` is what `GetState` answers.
unfoldable pub tick : CoreState → Time → Checks → HealthMonitor → HealthMonitor × List Action
unfolding run_once
tick state now checks h =
    if not (is_running state) && not (is_degraded state)
    then (h, [])
    else (let (seen, result) = run_once now checks h in
        if result.overall
        then (
          record seen { failures = 0 },
          (if is_degraded state then set_state running ∷ [] else [])
              ++ (if seen.on_restored then calls_restored ∷ [] else []),
        )
        else (
          record seen { failures = seen.failures + 1 },
          if leb seen.threshold (seen.failures + 1) && not (is_degraded state)
              then set_state degraded ∷ (if seen.on_degraded then calls_degraded ∷ [] else [])
              else [],
        ))
