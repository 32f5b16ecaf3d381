-- ===== src/Profile/Endpoint.antt =====
-- Which hosts a subscription may not name, and package names (profile.go). The address type of Go's
-- `net` and `net/netip` and its tests are a record of functions, an argument.
use Prim.Native.Char.{code}
use rknno_vpn.Prelude.{
  ℕ, String, Bool, true, false, ◌&&◌, ◌||◌, List, [], ◌∷◌, Option, none, some, leb, ltb, ◌==◌,
  length, str_eq, is_empty, trim_space, to_lower, trim_of, trim_prefix, trim_suffix, has_suffix,
  split_at, CaseMap, if◌then◌else◌,
}

-- `parse_ip` is `net.ParseIP`, `to_addr` is `netip.AddrFromSlice` with `Unmap`, the tests are those of
-- `net.IP` at the address so made, and `in_prefix` is `netip.ParsePrefix` with `Contains`.
pub record Net : Type 1 where
  pub Ip : Type 0
  pub Addr : Type 0
  pub parse_ip : String → Option Ip
  pub to_addr : Ip → Option Addr
  pub is_unspecified : Addr → Bool
  pub is_loopback : Addr → Bool
  pub is_private : Addr → Bool
  pub is_link_local_unicast : Addr → Bool
  pub is_link_local_multicast : Addr → Bool
  pub is_interface_local_multicast : Addr → Bool
  pub is_multicast : Addr → Bool
  pub in_prefix : String → Addr → Bool

abbrev pub local_subscription_host_suffixes : List String
local_subscription_host_suffixes =
    ".localhost" ∷ ".local" ∷ ".localdomain" ∷ ".lan" ∷ ".home.arpa" ∷ []

abbrev pub reserved_subscription_prefixes : List String
reserved_subscription_prefixes =
    "0.0.0.0/8" ∷ "100.64.0.0/10" ∷ "192.0.0.0/24" ∷ "192.0.2.0/24" ∷ "192.88.99.0/24"
    ∷ "198.18.0.0/15" ∷ "198.51.100.0/24" ∷ "203.0.113.0/24" ∷ "224.0.0.0/4" ∷ "240.0.0.0/4"
    ∷ "::/128" ∷ "::1/128" ∷ "64:ff9b::/96" ∷ "100::/64" ∷ "2001:db8::/32" ∷ "fc00::/7"
    ∷ "fe80::/10" ∷ "ff00::/8" ∷ []

-- Whether a test holds of some text of a list.
unfoldable pub any_text : (String → Bool) → List String → Bool
any_text p [] = false
any_text p (s ∷ ss) = p s || any_text p ss

unfoldable pub is_local_subscription_hostname : String → Bool
unfolding any_text
is_local_subscription_hostname host =
    (str_eq host "localhost" || str_eq host "ip6-localhost")
    || any_text (λ suffix. str_eq host (trim_prefix suffix ".") || has_suffix host suffix)
        local_subscription_host_suffixes

abbrev pub is_bracket : ℕ → Bool
is_bracket c = c == b'[' || c == b']'

module _ (net : Net) where
  unfoldable pub is_reserved_subscription_addr : net.Addr → Bool
  unfolding any_text
  is_reserved_subscription_addr addr =
      any_text (λ prefix. net.in_prefix prefix addr) reserved_subscription_prefixes

  unfoldable pub is_disallowed_subscription_endpoint : CaseMap → String → Bool
  unfolding is_local_subscription_hostname is_reserved_subscription_addr
  is_disallowed_subscription_endpoint m given =
      let host = trim_suffix (trim_of is_bracket (to_lower m (trim_space given))) "." in
      if is_empty host || is_local_subscription_hostname host
      then true
      else elim (net.parse_ip host) [
        | none ↦ false
        | some ip ↦ elim (net.to_addr ip) [
          | none ↦ true
          | some addr ↦
              net.is_unspecified addr
              || net.is_loopback addr
              || net.is_private addr
              || net.is_link_local_unicast addr
              || net.is_link_local_multicast addr
              || net.is_interface_local_multicast addr
              || net.is_multicast addr
              || is_reserved_subscription_addr addr
        ]
      ]

abbrev pub is_letter : ℕ → Bool
is_letter c = (leb b'A' c && leb c b'Z') || (leb b'a' c && leb c b'z') || c == b'_'

unfoldable pub all_word : String → Bool
all_word String.[] = true
all_word (String.◌∷◌ c s) =
    (is_letter (code c) || (leb b'0' (code c) && leb (code c) b'9')) && all_word s

-- One part between dots: not empty, and no digit first.
unfoldable pub is_package_part : String → Bool
unfolding all_word
is_package_part String.[] = false
is_package_part (String.◌∷◌ c s) = is_letter (code c) && all_word s

unfoldable pub all_parts : List String → Bool
unfolding is_package_part
all_parts [] = true
all_parts (part ∷ parts) = is_package_part part && all_parts parts

unfoldable pub is_valid_android_package_name : String → Bool
unfolding all_parts
is_valid_android_package_name value =
    let parts = split_at b'.' value in if ltb (length parts) 2 then false else all_parts parts
