-- ===== src/Profile/Samples.antt =====
-- A small profile, for the tests.
use rknno_vpn.Prelude.{String, true, false, [], ◌∷◌, none, pos, CaseMap}
use rknno_vpn.Profile.Types.{NodeSource, Node, Subscription, Document}
use rknno_vpn.Profile.Endpoint.{Net}
use rknno_vpn.Profile.Normalize.{World}

abbrev pub letters : CaseMap
letters = record { upper = λ c. c; lower = λ c. c; fold = λ c. c }

abbrev pub no_net : Net
no_net = record {
  Ip = String;
  Addr = String;
  parse_ip = λ s. none;
  to_addr = λ s. none;
  is_unspecified = λ s. false;
  is_loopback = λ s. false;
  is_private = λ s. false;
  is_link_local_unicast = λ s. false;
  is_link_local_multicast = λ s. false;
  is_interface_local_multicast = λ s. false;
  is_multicast = λ s. false;
  in_prefix = λ p s. false;
}

abbrev pub world : World
world = record {
  quote = λ s. s;
  json_valid = λ s. true;
  now = λ i. pos 1000;
  letters = letters;
  net = no_net;
}

abbrev pub manual : NodeSource
manual = record { type = "MANUAL"; url = ""; provider_key = ""; last_seen_at = pos 0 }

abbrev pub provided : NodeSource
provided = record { type = "SUBSCRIPTION"; url = "u"; provider_key = "p"; last_seen_at = pos 0 }

abbrev pub node : Node
node = record {
  id = "a";
  name = "A";
  protocol = "vless";
  server = "h.example";
  port = pos 443;
  link = "";
  outbound = "{}";
  group = "Default";
  owner_package = "";
  latency_ms = none;
  response_ms = none;
  throughput_bps = none;
  test_status = "";
  created_at = pos 5;
  stale = false;
  source = manual;
  extra = "";
}

-- Of a subscription, with its link.
abbrev pub far : Node
far = record node { id = "f"; link = "vless://f"; source = provided }

abbrev pub sub : Subscription
sub = record {
  provider_key = "p";
  url = "u";
  name = "";
  last_fetched_at = pos 0;
  last_seen_node_count = 0;
  stale_node_count = 0;
  upload_bytes = pos 0;
  download_bytes = pos 0;
  total_bytes = pos 0;
  expire_timestamp = pos 0;
  parse_failures = pos 0;
}

abbrev pub document : Document
document = record {
  schema_version = pos 2;
  id = "default";
  name = "Default";
  active_node_id = "a";
  nodes = node ∷ far ∷ [];
  subscriptions = record sub { last_seen_node_count = 1 } ∷ [];
  runtime = record { backend_kind = "ROOT_TPROXY"; fallback_policy = "OFFER_RESET" };
  routing = record {
    mode = "PROXY_ALL";
    bypass_russia = false;
    app_proxy_list = [];
    app_bypass_list = [];
    app_group_routes = [];
    direct_domains = [];
    proxy_domains = [];
    block_domains = [];
    direct_ips = [];
    proxy_ips = [];
    block_ips = [];
    always_direct_app_list = [];
    always_direct_excluded_app_list = [];
    always_direct_system_apps = false;
  };
  dns = record {
    remote_dns = "d";
    direct_dns = "e";
    bootstrap_ip = "1.1.1.1";
    ipv6_mode = "MIRROR";
    fake_dns = false;
  };
  health = record {
    enabled = true;
    interval_sec = pos 30;
    threshold = pos 3;
    check_url = "c";
    timeout_sec = pos 5;
    dns_probe_domains = [];
    egress_urls = [];
    dns_is_hard_readiness = false;
  };
  sharing = record { enabled = false; interfaces = [] };
  tun = record {
    enabled = true;
    mtu = pos 9000;
    ipv4_address = "172.19.0.1/30";
    ipv6 = false;
    auto_route = true;
    strict_route = true;
  };
  inbounds = record { socks_port = pos 0; http_port = pos 0; allow_lan = false };
  extra = "";
}
