-- ===== src/Runtime/Samples.antt =====
-- An orchestrator and its environment, for tests.
use rknno_vpn.Prelude.{ℕ, true, false, [], ◌∷◌, none, some}
use rknno_vpn.Runtime.Types.{
  DesiredState, CompatibilityStatus, HealthSnapshot, plain_error, OperationKind, starting,
  ResetReport,
}
use rknno_vpn.Runtime.Errors.{no_health}
use rknno_vpn.Runtime.State.{Env, Backend}
use rknno_vpn.Runtime.Engine.{new_operation}
use rknno_vpn.Runtime.Commands.{start_run}
use rknno_vpn.Runtime.System.{System, Goroutine, start, call, initial}

abbrev pub compatibility : CompatibilityStatus
compatibility = record {
  daemon_version = "1";
  module_version = "1";
  current_release_version = "";
  current_release_ok = true;
  current_release_error = "";
  control_protocol_version = 1;
  schema_version = 1;
  ipc_contract_version = 1;
  contract_hash = "";
  compatibility_fingerprint = "";
  daemon_pid = 1;
  socket_inode = "";
  panel_min_version = "";
  capabilities = [];
  supported_methods = [];
  apk_required_methods = [];
  error_codes = [];
  compatibility_policies = [];
  operation_policies = [];
  methods = [];
}

abbrev pub desired : DesiredState
desired = record {
  backend_kind = "ROOT_TPROXY";
  active_profile_id = "p1";
  routing_mode = "";
  app_selection = record { proxy_packages = []; bypass_packages = [] };
  dns_policy = record { remote_dns = ""; direct_dns = ""; fake_dns = false; ipv6_mode = "" };
  fallback_policy = "";
}

abbrev pub ready : HealthSnapshot
ready = record no_health {
  core_ready = true;
  dns_ready = true;
  routing_ready = true;
  egress_ready = true;
  checked_at = 50;
}

abbrev pub clean_report : ℕ → ResetReport
clean_report generation = record {
  backend_kind = "ROOT_TPROXY";
  generation = generation;
  status = "ok";
  steps = [];
  warnings = [];
  errors = [];
  leftovers = [];
  reboot_required = false;
}

abbrev pub backend : Backend
backend = record {
  supported = true;
  reason = "";
  start = λ d g. record { report = none; error = none };
  stop = none;
  reset = clean_report;
  restart = λ d g. record { report = none; error = some (plain_error "no core") };
  handle_network_change = λ g. record { report = none; error = none };
  current_health = ready;
  refresh_health = ready;
}

abbrev pub env : Env
env = record { now = 100; backend = λ k. backend }

abbrev pub machine : System
machine = initial desired ("ROOT_TPROXY" ∷ []) compatibility

abbrev pub started : System
started = call env start machine

-- The goroutine of that start.
abbrev pub routine : Goroutine
routine = record {
  op = new_operation env OperationKind.start starting machine.state;
  task = start_run desired;
  ending = none;
}
