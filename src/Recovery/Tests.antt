-- ===== src/Recovery/Tests.antt =====
-- The monitor and the rescue at concrete inputs: the properties applied, and short runs.
use rknno_vpn.Prelude.{pos, negsuc}
use rknno_vpn.Recovery.Probes.{ProbeConfig}
use rknno_vpn.Prelude.{true, false, List, [], ◌∷◌, none, some, leb, if◌then◌else◌, ◌≡◌, refl, arith}
use rknno_vpn.Runtime.Types.{Time}
use rknno_vpn.Recovery.Health.{
  running, degraded, Checks, CheckResult, HealthMonitor, new_health_monitor, start,
}
use rknno_vpn.Recovery.Rescue.{RescueManager, Gates, Answers, new_rescue_manager, attempt}
use rknno_vpn.Recovery.Watching.{watch, failed_since, watch_lem}

abbrev good : CheckResult
good = record { pass = true; detail = ""; code = "" }

abbrev bad : CheckResult
bad = record { pass = false; detail = "no rule"; code = "ROUTING_MISSING" }

abbrev all_good : Checks
all_good = record {
  singbox_alive = good;
  tproxy_port = good;
  iptables = good;
  routing = good;
  dns_listener = bad;
  dns = good;
}

abbrev unrouted : Checks
unrouted = record all_good { routing = bad }

abbrev cycles : List (Time × Checks)
cycles = (1, unrouted) ∷ (2, all_good) ∷ (3, unrouted) ∷ (4, unrouted) ∷ []

abbrev monitor : HealthMonitor
monitor = start (new_health_monitor 2)

watch_lem_example :
    let n = failed_since monitor.dns_hard cycles in
    let after = watch running monitor cycles in
    (after.0 ≡ (if leb monitor.threshold n then degraded else running)) × (after.1.failures ≡ n)
unfolding new_health_monitor start
watch_lem_example = watch_lem monitor cycles (omega arith) refl

abbrev open_gates : Gates
open_gates = record {
  at_start = true;
  before_strategy = true;
  in_strategy = true;
  between = true;
  after_failure = true;
  at_end = true;
}

-- The rules are not applied again.
abbrev answers : Answers
answers = record {
  now = 90;
  picked_at = 91;
  gates = open_gates;
  hot_swap = none;
  iptables_start = some "exit 1";
  dns_start = none;
  start = none;
}

abbrev tried_once : RescueManager
tried_once = (attempt (record answers { now = 10; picked_at = 11 }) (new_rescue_manager 3 60)).0

-- Nothing that can be used is given.
abbrev bare : ProbeConfig
bare = record {
  new_interval = pos 0;
  new_threshold = negsuc 4;
  new_tproxy_port = pos 0;
  new_dns_port = pos 0;
  new_route_mark = pos 0;
  check_url = "";
  probe_domains = " " ∷ "a.example" ∷ "a.example " ∷ [];
  hard = false;
  timeout = pos 0;
}
