-- ===== src/Core/Tests.antt =====
-- The manager at concrete answers: runs of it, and the properties applied.
use rknno_vpn.Prelude.{
  arith, ◌≡◌, refl, ◌+◌, ◌-◌, ◌/◌, ◌≤◌, pos, String, true, false, [], ◌∷◌, none, some,
}
use rknno_vpn.Recovery.Health.{CoreState, stopped, running, degraded}
use rknno_vpn.Core.Report.{empty_report, new_runtime_stage_report, last_time}
use rknno_vpn.Core.State.{
  Fault, removes, active_file, cleans_rules, CoreConfig, NodeProfile, CoreManager, verifies_rules,
  renames, spawns_core, World, CoreRun, Outcome, continued, failed, try_call, fail_stage,
  cleared_core,
}
use rknno_vpn.Core.Launch.{start, roll_back}
use rknno_vpn.Core.Process.{runtime_listener_waits}
use rknno_vpn.Core.Stop.{stop}
use rknno_vpn.Core.Swap.{fall_back, hot_swap}
use rknno_vpn.Core.Quiet.{rules_asked, early_signal}
use rknno_vpn.Core.Started.{StartEnd, start_lem}
use rknno_vpn.Core.Stopping.{stop_lem}
use rknno_vpn.Core.Stages.{
  StageCall, add_calls, total_ms, last_failed, ReportsLast, add_calls_bounds, add_calls_last,
}

abbrev config : CoreConfig
config = record {
  tproxy_port = pos 10853;
  dns_port = pos 10856;
  api_port = pos 0;
  socks_port = pos 0;
  http_port = pos 0;
  settings = "{}";
}

abbrev profile : NodeProfile
profile = record { protocol = "vless"; address = "a.example"; settings = "" }

abbrev other : NodeProfile
other = record { protocol = "trojan"; address = "b.example"; settings = "" }

-- Nothing fails, and every process ends when it is told to.
abbrev well : World
well = record {
  fault = λ calls c. none;
  exits = λ calls c. true;
  new_pid = λ calls c. 100;
  steps = λ calls c. 3;
  now = λ n. n + 1;
  requires_xray = λ p. false;
  json_clone = λ c. some c;
  file_path = λ f. "/f";
  log_path = "/log";
}

-- The rules do not pass their verification.
abbrev unverified : World
unverified = record well {
  fault = λ calls c. elim c [
    | verifies_rules ↦ some (record { text = "no rule"; code = "X" })
    | _ ↦ none
  ];
}

-- The new configuration cannot be moved into its place.
abbrev no_rename : World
no_rename = record well {
  fault = λ calls c. elim c [ renames f g ↦ some (record { text = "busy"; code = "" }) | _ ↦ none ];
}

-- And sing-box does not start, then and after.
abbrev no_spawn : World
no_spawn = record well {
  fault = λ calls c. elim c [
    | spawns_core f ↦ some (record { text = "no file"; code = "" })
    | _ ↦ none
  ];
}

abbrev blank : CoreManager
blank = record {
  config = config;
  process = none;
  exit_ch = none;
  pid = 0;
  xray_process = none;
  xray_exit_ch = none;
  xray_pid = 0;
  state = stopped;
  active_profile = "";
  running_config = none;
  running_profile = none;
  started_at = 0;
  last_start_report = empty_report;
  last_runtime_report = empty_report;
}

abbrev begun : CoreRun
begun = record { core = blank; report = empty_report; calls = []; ticks = 0 }

-- A run in which the profile is served.
abbrev served : CoreRun
served = record begun {
  core = record blank {
    process = some 7;
    exit_ch = some 7;
    pid = 7;
    state = running;
    active_profile = "vless://a.example";
    running_config = some config;
    running_profile = some profile;
    started_at = 5;
  };
}

start_lem_example : StartEnd well profile begun (start well profile begun)
unfolding cleared_core rules_asked
start_lem_example = start_lem well profile begun refl refl

stop_lem_example :
    ((stop well served).0.core ≡ cleared_core stopped served.core)
    × (rules_asked (stop well served).0.calls ≡ false)
    × (early_signal (stop well served).0.calls ≡ early_signal served.calls)
    × ((f : Fault)
        → well.fault (removes active_file ∷ served.calls) cleans_rules ≡ some f
        → (stop well served).1 ≡ some f.text)
stop_lem_example = stop_lem well served

start_unverified : (start unverified profile begun).0.core.state ≡ stopped
unfolding start try_call runtime_listener_waits roll_back fail_stage
start_unverified = refl

-- The state and the profile of a run.
abbrev ends_in : Outcome → CoreState × String
ends_in (continued r) = (r.core.state, r.core.active_profile)
ends_in (failed r e) = (r.core.state, r.core.active_profile)

hot_swap_new : ends_in (hot_swap well other served) ≡ (running, "trojan://b.example")
unfolding hot_swap try_call runtime_listener_waits
hot_swap_new = refl

hot_swap_undone : ends_in (hot_swap no_rename other served) ≡ (running, "vless://a.example")
unfolding hot_swap try_call runtime_listener_waits fall_back
hot_swap_undone = refl

hot_swap_lost : ends_in (hot_swap no_spawn other served) ≡ (degraded, "")
unfolding hot_swap try_call fall_back fail_stage
hot_swap_lost = refl

abbrev rendered : StageCall
rendered = record {
  now = 3000000;
  name = "render-config";
  status = "";
  code = "";
  detail = "";
  rollback_applied = false;
}

abbrev waited : StageCall
waited = record {
  now = 9500000;
  name = "wait-tproxy";
  status = "failed";
  code = "TPROXY_PORT_DOWN";
  detail = "timeout";
  rollback_applied = true;
}

add_calls_bounds_example :
    let r = add_calls (rendered ∷ waited ∷ []) (new_runtime_stage_report 1000000 "hot-swap") in
    total_ms r.stages ≤ (last_time r.started_at r.stages - r.started_at) / 1000000
add_calls_bounds_example =
    add_calls_bounds "hot-swap" 1000000 (rendered ∷ waited ∷ []) (omega arith)

add_calls_last_example :
    ReportsLast
      (last_failed none (rendered ∷ waited ∷ []))
      (add_calls (rendered ∷ waited ∷ []) (new_runtime_stage_report 1000000 "hot-swap"))
add_calls_last_example = add_calls_last "hot-swap" 1000000 (rendered ∷ waited ∷ [])
