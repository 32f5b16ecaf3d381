-- ===== src/Recovery/Probes.antt =====
-- The parameters of the health monitor (monitor.go): `SetConfig` and the hosts of the DNS probe. The host of
-- a URL, where `net/url` finds one, is an argument. Durations are integers, and so are the other numbers.
use rknno_vpn.Prelude.{
  suc, String, Bool, true, false, not, ◌||◌, List, [], ◌∷◌, ◌++◌, Option, none, some, ℤ, pos,
  is_zero_ℤ, is_nil, is_empty, trim_space, contains, if◌then◌else◌,
}

pub record ProbeSettings : Type 0 where
  pub interval : ℤ
  pub failure_threshold : ℤ
  pub tproxy_port : ℤ
  pub dns_port : ℤ
  pub route_mark : ℤ
  pub dns_hosts : List String
  pub dns_is_hard : Bool
  pub dns_timeout : ℤ

-- The arguments of `SetConfig`, and of `NewHealthMonitor` but for the last two lists of names.
pub record ProbeConfig : Type 0 where
  pub new_interval : ℤ
  pub new_threshold : ℤ
  pub new_tproxy_port : ℤ
  pub new_dns_port : ℤ
  pub new_route_mark : ℤ
  pub check_url : String
  pub probe_domains : List String
  pub hard : Bool
  pub timeout : ℤ

abbrev pub above_zero : ℤ → Bool
above_zero (pos (suc n)) = true
above_zero _ = false

-- The loop over the domains, with the hosts so far.
unfoldable pub collect_hosts : List String → List String → List String
collect_hosts [] hosts = hosts
collect_hosts (domain ∷ domains) hosts =
    let host = trim_space domain in
    collect_hosts domains
      (if is_empty host || contains hosts host then hosts else hosts ++ host ∷ [])

unfoldable pub normalized_dns_timeout : ℤ → ℤ
normalized_dns_timeout timeout = if above_zero timeout then timeout else pos 3000000000

module _ (hostname : String → Option String) where
  unfoldable pub dns_probe_host : String → String
  dns_probe_host url = if is_empty url then "dns.google" else elim (hostname url) [
    | none ↦ "dns.google"
    | some host ↦ if is_empty host then "dns.google" else host
  ]

  unfoldable pub normalize_dns_probe_hosts : String → List String → List String
  unfolding dns_probe_host collect_hosts
  normalize_dns_probe_hosts url domains =
      let hosts = collect_hosts domains [] in
      let host = dns_probe_host url in
      if not (is_nil hosts) then hosts else if is_empty host then "dns.google" ∷ [] else host ∷ []

  unfoldable pub new_probe_settings : ProbeConfig → ProbeSettings
  unfolding normalize_dns_probe_hosts normalized_dns_timeout
  new_probe_settings c = record {
    interval = c.new_interval;
    failure_threshold = if above_zero c.new_threshold then c.new_threshold else pos 3;
    tproxy_port = c.new_tproxy_port;
    dns_port = c.new_dns_port;
    route_mark = c.new_route_mark;
    dns_hosts = normalize_dns_probe_hosts c.check_url [];
    dns_is_hard = false;
    dns_timeout = normalized_dns_timeout c.timeout;
  }

  unfoldable pub set_probe_config : ProbeConfig → ProbeSettings → ProbeSettings
  unfolding normalize_dns_probe_hosts normalized_dns_timeout
  set_probe_config c s = record {
    interval = if above_zero c.new_interval then c.new_interval else s.interval;
    failure_threshold = if above_zero c.new_threshold then c.new_threshold else s.failure_threshold;
    tproxy_port = if above_zero c.new_tproxy_port then c.new_tproxy_port else s.tproxy_port;
    dns_port = if above_zero c.new_dns_port then c.new_dns_port else s.dns_port;
    route_mark = if is_zero_ℤ c.new_route_mark then s.route_mark else c.new_route_mark;
    dns_hosts = normalize_dns_probe_hosts c.check_url c.probe_domains;
    dns_is_hard = c.hard;
    dns_timeout = normalized_dns_timeout c.timeout;
  }

  -- The settings of a monitor behind some calls of `SetConfig`.
  abbrev pub configured : ProbeSettings → List ProbeConfig → ProbeSettings
  configured s [] = s
  configured s (c ∷ cs) = configured (set_probe_config c s) cs
