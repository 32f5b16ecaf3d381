-- ===== src/Profile/Accepted.antt =====
-- What is true of a profile that the checks accept (`Normalize` of profile.go), and of a merge into it.
use rknno_vpn.Prelude.{◌≡◌, ap, ◌∙◌, true, List, [], ◌∷◌, distinct, All, CaseMap}
use rknno_vpn.Profile.Types.{Node, Subscription, Document, Warning}
use rknno_vpn.Profile.Merge.{merge_nodes}
use rknno_vpn.Profile.Summary.{normalize_subscriptions}
use rknno_vpn.Profile.Normalize.{
  World, ok, check_header, normalize_nodes, trim_subscriptions, provider_keys, check_providers,
  repair_active, normalize,
}
use rknno_vpn.Profile.Identity.{ids, Named, distinct-merge_nodes}
use rknno_vpn.Profile.Providers.{contains-normalize_subscriptions}
use rknno_vpn.Profile.Valid.{ValidNode, bind_inv, ok_inj}
use rknno_vpn.Profile.Checks.{
  ValidDocument, Repaired, normalize_nodes_inv, trim_subscriptions_inv, check_providers_inv,
  repair_active-Repaired, repair_active_keeps, check_header_inv,
}

-- The stages of a run that accepts the profile.
record Stages (w : World) (given doc : Document) (warnings : List Warning) : Type 0 where
  pub header : Document
  pub nodes : List Node
  pub subs : List Subscription
  pub end : Unit {0}
  pub headed : check_header given ≡ ok header
  pub checked : normalize_nodes w 0 [] header.nodes ≡ ok nodes
  pub trimmed : trim_subscriptions 0 header.subscriptions ≡ ok subs
  pub provided : check_providers 0 (provider_keys subs) nodes ≡ ok end
  pub result :
      let out = repair_active w (record header { nodes = nodes; subscriptions = subs }) in
      ◌≡◌ {A = Document × List Warning}
        (doc, warnings)
        (record out.0 { subscriptions = normalize_subscriptions subs nodes }, out.1)

normalize-Stages :
    (w : World) (given doc : Document) (warnings : List Warning)
    → normalize w given ≡ ok (doc, warnings)
    → Stages w given doc warnings
unfolding normalize
normalize-Stages w given doc warnings h =
    let (header, a, h1) = bind_inv (check_header given) _ h in
    let (nodes, b, h2) = bind_inv (normalize_nodes w 0 [] header.nodes) _ h1 in
    let (subs, c, h3) = bind_inv (trim_subscriptions 0 header.subscriptions) _ h2 in
    let (end, d, h4) = bind_inv (check_providers 0 (provider_keys subs) nodes) _ h3 in
    record {
      header = header;
      nodes = nodes;
      subs = subs;
      end = end;
      headed = a;
      checked = b;
      trimmed = c;
      provided = d;
      result = ok_inj _ _ h4;
    }

module _ (w : World) (given doc : Document) (warnings : List Warning)
    (s : Stages w given doc warnings) where
  abbrev whole : Document
  whole = record s.header { nodes = s.nodes; subscriptions = s.subs }

  nodes_of_stages : doc.nodes ≡ s.nodes
  nodes_of_stages = ap (λ r. r.0.nodes) s.result ∙ (repair_active-Repaired w whole).1

  stages-ValidDocument : ValidDocument w doc
  stages-ValidDocument =
      let kept = repair_active_keeps w whole in
      let head = check_header_inv given s.header s.headed in
      let fresh = normalize_nodes_inv w s.header.nodes 0 [] s.nodes s.checked in
      let complete = trim_subscriptions_inv s.header.subscriptions 0 s.subs s.trimmed in
      let inbounds : doc.inbounds ≡ s.header.inbounds = ap (λ r. r.0.inbounds) s.result ∙ kept.0 in
      let schema : doc.schema_version ≡ s.header.schema_version =
        ap (λ r. r.0.schema_version) s.result ∙ kept.1 in
      let subs : doc.subscriptions ≡ normalize_subscriptions s.subs s.nodes =
        ap (λ r. r.0.subscriptions) s.result in
      let provided =
        check_providers_inv s.nodes 0 (provider_keys s.subs)
          (provider_keys (normalize_subscriptions s.subs s.nodes))
          (λ key. contains-normalize_subscriptions s.subs s.nodes key complete) s.provided in
      record {
        schema = rw schema head.schema;
        no_lan = rw inbounds head.no_lan;
        socks = rw inbounds head.socks;
        http = rw inbounds head.http;
        nodes = rw nodes_of_stages fresh.valid;
        apart = rw nodes_of_stages fresh.apart;
        provided = rw (nodes_of_stages, subs) provided;
      }

  stages-Repaired : Repaired given.active_node_id doc warnings
  stages-Repaired =
      let (repaired, same) = repair_active-Repaired w whole in
      let head = check_header_inv given s.header s.headed in
      let active : doc.active_node_id ≡ (repair_active w whole).0.active_node_id =
        ap (λ r. r.0.active_node_id) s.result in
      let noted : warnings ≡ (repair_active w whole).1 = ap (λ r. r.1) s.result in
      rw (← head.active, nodes_of_stages, ← same, active, noted) repaired

-- A profile that the checks accept has a schema that the daemon knows, ports in range, no service to
-- the local network, nodes that are valid one by one, no id twice, and a subscription for each node of
-- one. Its active node is the given one, without a warning, if that is none or a node that is not stale;
-- else it is one that is not stale, unless all are, with one warning.
pub normalize-ValidDocument :
    (w : World) (given doc : Document) (warnings : List Warning)
    → normalize w given ≡ ok (doc, warnings)
    → ValidDocument w doc × Repaired given.active_node_id doc warnings
normalize-ValidDocument w given doc warnings h =
    let s = normalize-Stages w given doc warnings h in
    (stages-ValidDocument w given doc warnings s, stages-Repaired w given doc warnings s)

All-Named : (w : World) (nodes : List Node) → All (ValidNode w) nodes → All Named nodes
All-Named w [] h = tt
All-Named w (node ∷ nodes) h = (h.0.named, All-Named w nodes h.1)

-- A merge of any nodes into a profile that the checks import_keys leaves the ids distinct.
pub distinct-merge_nodes-normalize :
    (w : World) (given doc : Document) (warnings : List Warning) (m : CaseMap)
    (incoming : List Node)
    → normalize w given ≡ ok (doc, warnings)
    → distinct (ids (merge_nodes m doc incoming).0.nodes) ≡ true
distinct-merge_nodes-normalize w given doc warnings m incoming h =
    let valid = (normalize-ValidDocument w given doc warnings h).0 in
    distinct-merge_nodes m doc incoming (All-Named w doc.nodes valid.nodes) valid.apart
