-- ===== src/Profile/Normalize.antt =====
-- The checks and defaults of a profile (`Normalize` of profile.go). An error carries the index of the
-- node or subscription that it names; the text of a message is left out. What is written to the slices of
-- the given document is not modelled, only the document that is returned.
use rknno_vpn.Prelude.{
  ℕ, suc, ◌+◌, String, Bool, true, false, not, ◌&&◌, ◌||◌, List, [], ◌∷◌, ℤ, pos, negsuc, is_zero_ℤ,
  in_range, ltb, decimal, str_eq, is_empty, concat, trim_space, to_upper, contains, CaseMap,
  if◌then◌else◌,
}
use rknno_vpn.Profile.Types.{Node, Subscription, Document, Warning}
use rknno_vpn.Profile.Keys.{first_non_empty_trimmed, normalize_protocol, first_live_id}
use rknno_vpn.Profile.Endpoint.{
  Net, is_valid_android_package_name, is_disallowed_subscription_endpoint,
}
use rknno_vpn.Profile.Operations.{has_live}
use rknno_vpn.Profile.Summary.{normalize_subscriptions}

-- `json.Valid`, the clock as it is read for each node, `%q`, the case of letters and the addresses.
pub record World : Type 1 where
  pub quote : String → String
  pub json_valid : String → Bool
  pub now : ℕ → ℤ
  pub letters : CaseMap
  pub net : Net

pub data NormalizeError : Type 0 where
  schema_too_new : ℤ → NormalizeError
  allow_lan socks_port http_port : NormalizeError
  duplicate_id : ℕ → String → NormalizeError
  owner_package outbound_json node_port source_type_required stale_manual : ℕ → NormalizeError
  node_provider_key disallowed_server source_type : ℕ → NormalizeError
  sub_provider_key sub_url : ℕ → NormalizeError
  missing_provider : ℕ → String → NormalizeError

pub data Checked {ℓ} (A : Type ℓ) : Type ℓ where
  ok : A → Checked A
  err : NormalizeError → Checked A

infixl 5 ◌>>=◌ ◌>>◌
abbrev pub ◌>>=◌ {ℓ κ} : {A : Type ℓ} {B : Type κ} → Checked A → (A → Checked B) → Checked B
ok a >>= f = f a
err e >>= f = err e

abbrev pub ◌>>◌ {ℓ} : {B : Type ℓ} → Checked (Unit {0}) → Checked B → Checked B
m >> k = m >>= λ _. k

-- `if bad { return err }`.
abbrev pub refuse_if : Bool → NormalizeError → Checked (Unit {0})
refuse_if true e = err e
refuse_if false e = ok tt

-- `validatePort` accepts.
abbrev pub valid_port : Bool → ℤ → Bool
valid_port zero_allowed port = (zero_allowed && is_zero_ℤ port) || in_range 1 65535 port

abbrev pub or_default : String → String → String
or_default given default = first_non_empty_trimmed (trim_space given ∷ default ∷ [])

abbrev pub or_number : ℤ → ℕ → ℤ
or_number given default = if is_zero_ℤ given then pos default else given

abbrev pub text_or : String → String → String
text_or given default = if is_empty given then default else given

abbrev pub above : ℕ → ℤ → Bool
above n (pos k) = ltb n k
above n (negsuc k) = false

-- The defaults before the first check of a port.
unfoldable pub with_defaults : Document → Document
with_defaults doc = record doc {
  id = or_default doc.id "default";
  name = or_default doc.name "Default";
  runtime = record {
    backend_kind = or_default doc.runtime.backend_kind "ROOT_TPROXY";
    fallback_policy = or_default doc.runtime.fallback_policy "OFFER_RESET";
  };
  routing = record doc.routing { mode = or_default doc.routing.mode "PROXY_ALL" };
  dns = record doc.dns {
    remote_dns = or_default doc.dns.remote_dns "https://1.1.1.1/dns-query";
    direct_dns = or_default doc.dns.direct_dns "https://dns.google/dns-query";
    bootstrap_ip = or_default doc.dns.bootstrap_ip "1.1.1.1";
    ipv6_mode = or_default doc.dns.ipv6_mode "MIRROR";
  };
  health = record doc.health {
    interval_sec = or_number doc.health.interval_sec 30;
    threshold = or_number doc.health.threshold 3;
    timeout_sec = or_number doc.health.timeout_sec 5;
    check_url = text_or doc.health.check_url "https://www.gstatic.com/generate_204";
  };
  tun = record doc.tun {
    mtu = or_number doc.tun.mtu 9000;
    ipv4_address = text_or doc.tun.ipv4_address "172.19.0.1/30";
  };
}

unfoldable pub check_header : Document → Checked Document
unfolding with_defaults
check_header given =
    let doc = record given { schema_version = or_number given.schema_version 2 } in
    let full = with_defaults doc in
    do
      refuse_if (above 2 doc.schema_version) (schema_too_new doc.schema_version)
      refuse_if full.inbounds.allow_lan allow_lan
      refuse_if (not (valid_port true full.inbounds.socks_port)) socks_port
      refuse_if (not (valid_port true full.inbounds.http_port)) http_port
      ok full

-- The id of the node at index `i`.
abbrev pub node_id : ℕ → Node → String
node_id i node = text_or (trim_space node.id) (concat "node-" (decimal (i + 1)))

-- The fields of a node but its source, which is in capitals.
unfoldable pub clean_node : World → ℕ → Node → Node
clean_node w i node =
    let id = node_id i node in
    let server = trim_space node.server in
    let source = node.source in
    record node {
      id = id;
      protocol = normalize_protocol w.letters node.protocol;
      server = server;
      name = first_non_empty_trimmed (trim_space node.name ∷ server ∷ id ∷ []);
      group = or_default node.group "Default";
      owner_package = trim_space node.owner_package;
      created_at = if is_zero_ℤ node.created_at then w.now i else node.created_at;
      outbound = if is_empty (trim_space node.outbound) then "{}" else node.outbound;
      source = record source { type = to_upper w.letters (trim_space source.type) };
    }

-- The switch on the type of the source.
unfoldable pub check_source : World → ℕ → Node → Checked Node
check_source w i node =
    let source = node.source in
    if str_eq source.type "MANUAL"
    then (do refuse_if node.stale (stale_manual i); ok node)
    else if str_eq source.type "SUBSCRIPTION"
    then (let key = trim_space source.provider_key in
        let next = record node {
          source = record source { url = trim_space source.url; provider_key = key };
        } in
        do
          refuse_if (is_empty key) (node_provider_key i)
          refuse_if (is_disallowed_subscription_endpoint w.net w.letters node.server)
              (disallowed_server i)
          ok next)
    else err (source_type i)

unfoldable pub normalize_node : World → ℕ → List String → Node → Checked Node
unfolding clean_node check_source
normalize_node w i seen given =
    let node = clean_node w i given in
    do
      refuse_if (contains seen node.id) (duplicate_id i node.id)
      refuse_if
          (not (is_empty node.owner_package)
            && not (is_valid_android_package_name node.owner_package))
          (owner_package i)
      refuse_if (not (is_empty (trim_space given.outbound)) && not (w.json_valid given.outbound))
          (outbound_json i)
      refuse_if (not (valid_port false node.port)) (node_port i)
      refuse_if (is_empty node.source.type) (source_type_required i)
      check_source w i node

-- The loop over the nodes from index `i` on, with the ids so far.
unfoldable pub normalize_nodes : World → ℕ → List String → List Node → Checked (List Node)
normalize_nodes w i seen [] = ok []
normalize_nodes w i seen (node ∷ nodes) = normalize_node w i seen node >>= λ next.
    normalize_nodes w (suc i) (next.id ∷ seen) nodes >>= λ rest. ok (next ∷ rest)

unfoldable pub trim_subscriptions : ℕ → List Subscription → Checked (List Subscription)
trim_subscriptions i [] = ok []
trim_subscriptions i (given ∷ subs) =
    let sub = record given {
      provider_key = trim_space given.provider_key;
      url = trim_space given.url;
      name = trim_space given.name;
    } in
    do
      refuse_if (is_empty sub.provider_key) (sub_provider_key i)
      refuse_if (is_empty sub.url) (sub_url i)
      rest ← trim_subscriptions (suc i) subs
      ok (sub ∷ rest)

unfoldable pub provider_keys : List Subscription → List String
provider_keys [] = []
provider_keys (sub ∷ subs) = sub.provider_key ∷ provider_keys subs

-- The loop that looks for the subscription of every node of one.
unfoldable pub check_providers : ℕ → List String → List Node → Checked (Unit {0})
check_providers i keys [] = ok tt
check_providers i keys (node ∷ nodes) =
    refuse_if
      (str_eq node.source.type "SUBSCRIPTION" && not (contains keys node.source.provider_key))
      (missing_provider i node.source.provider_key)
    >> check_providers (suc i) keys nodes

-- The active node, and the warning where it is repaired.
unfoldable pub repair_active : World → Document → Document × List Warning
repair_active w doc =
    if not (is_empty doc.active_node_id) && not (has_live doc.nodes doc.active_node_id)
    then (let chosen = first_live_id doc.nodes in
        let text = concat "active node " (
          concat (w.quote doc.active_node_id)
            (concat " was missing or stale; selected " (w.quote chosen))) in
        (
          record doc { active_node_id = chosen },
          record { code = "active_node_repaired"; message = text } ∷ [],
        ))
    else (doc, [])

unfoldable pub normalize : World → Document → Checked (Document × List Warning)
unfolding check_header normalize_nodes trim_subscriptions provider_keys check_providers
    repair_active
normalize w given = do
  doc ← check_header given
  nodes ← normalize_nodes w 0 [] doc.nodes
  subs ← trim_subscriptions 0 doc.subscriptions
  check_providers 0 (provider_keys subs) nodes
  let (repaired, warnings) = repair_active w (record doc { nodes = nodes; subscriptions = subs })
  ok (record repaired { subscriptions = normalize_subscriptions subs nodes }, warnings)
