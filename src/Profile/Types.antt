-- ===== src/Profile/Types.antt =====
-- The document of a profile (profile.go). Raw JSON is a text; a time in milliseconds and a size are
-- integers.
use rknno_vpn.Prelude.{ℕ, ℤ, String, Bool, List, Option, StringMap}

pub record NodeSource : Type 0 where
  pub type : String
  pub url : String
  pub provider_key : String
  pub last_seen_at : ℤ

pub record Node : Type 0 where
  pub id : String
  pub name : String
  pub protocol : String
  pub server : String
  pub port : ℤ
  pub link : String
  pub outbound : String
  pub group : String
  pub owner_package : String
  pub latency_ms : Option ℤ
  pub response_ms : Option ℤ
  pub throughput_bps : Option ℤ
  pub test_status : String
  pub created_at : ℤ
  pub stale : Bool
  pub source : NodeSource
  pub extra : String

pub record Subscription : Type 0 where
  pub provider_key : String
  pub url : String
  pub name : String
  pub last_fetched_at : ℤ
  pub last_seen_node_count : ℕ
  pub stale_node_count : ℕ
  pub upload_bytes : ℤ
  pub download_bytes : ℤ
  pub total_bytes : ℤ
  pub expire_timestamp : ℤ
  pub parse_failures : ℤ

pub record RuntimeConfig : Type 0 where
  pub backend_kind : String
  pub fallback_policy : String

pub record RoutingConfig : Type 0 where
  pub mode : String
  pub bypass_russia : Bool
  pub app_proxy_list : List String
  pub app_bypass_list : List String
  pub app_group_routes : StringMap String
  pub direct_domains : List String
  pub proxy_domains : List String
  pub block_domains : List String
  pub direct_ips : List String
  pub proxy_ips : List String
  pub block_ips : List String
  pub always_direct_app_list : List String
  pub always_direct_excluded_app_list : List String
  pub always_direct_system_apps : Bool

pub record DnsConfig : Type 0 where
  pub remote_dns : String
  pub direct_dns : String
  pub bootstrap_ip : String
  pub ipv6_mode : String
  pub fake_dns : Bool

pub record HealthConfig : Type 0 where
  pub enabled : Bool
  pub interval_sec : ℤ
  pub threshold : ℤ
  pub check_url : String
  pub timeout_sec : ℤ
  pub dns_probe_domains : List String
  pub egress_urls : List String
  pub dns_is_hard_readiness : Bool

pub record SharingConfig : Type 0 where
  pub enabled : Bool
  pub interfaces : List String

pub record TunConfig : Type 0 where
  pub enabled : Bool
  pub mtu : ℤ
  pub ipv4_address : String
  pub ipv6 : Bool
  pub auto_route : Bool
  pub strict_route : Bool

pub record InboundsConfig : Type 0 where
  pub socks_port : ℤ
  pub http_port : ℤ
  pub allow_lan : Bool

pub record Document : Type 0 where
  pub schema_version : ℤ
  pub id : String
  pub name : String
  pub active_node_id : String
  pub nodes : List Node
  pub subscriptions : List Subscription
  pub runtime : RuntimeConfig
  pub routing : RoutingConfig
  pub dns : DnsConfig
  pub health : HealthConfig
  pub sharing : SharingConfig
  pub tun : TunConfig
  pub inbounds : InboundsConfig
  pub extra : String

pub record Warning : Type 0 where
  pub code : String
  pub message : String
