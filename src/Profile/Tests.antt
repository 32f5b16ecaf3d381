-- ===== src/Profile/Tests.antt =====
-- The profile at concrete inputs: the properties applied.
use rknno_vpn.Prelude.{
  ◌≡◌, refl, true, false, List, [], ◌∷◌, none, some, contains, distinct, All, get_elem?,
}
use rknno_vpn.Prelude.{
  is_space, trim_space, to_upper, to_lower, lookup, put, trim_of, trim_suffix, trim_prefix,
  has_suffix, has_prefix, sort_texts, join, decimal, itoa,
}
use rknno_vpn.Profile.Types.{Node, Document}
use rknno_vpn.Profile.Keys.{first_non_empty_trimmed, normalize_protocol, node_match_key}
use rknno_vpn.Profile.Ids.{unique_imported_node_id}
use rknno_vpn.Profile.Merge.{merge_nodes, merge_node}
use rknno_vpn.Profile.Operations.{edited, has_live, upsert_node, has_node, remove_node}
use rknno_vpn.Profile.Normalize.{ok, normalize, normalize_node}
use rknno_vpn.Profile.Endpoint.{is_disallowed_subscription_endpoint}
use rknno_vpn.Profile.Summary.{normalize_subscriptions}
use rknno_vpn.Profile.Identity.{ids}
use rknno_vpn.Profile.Unique.{contains-unique_imported_node_id}
use rknno_vpn.Profile.Places.{first_of}
use rknno_vpn.Profile.Taken.{last_index, taken_over, place-merge_nodes}
use rknno_vpn.Profile.Active.{Settled, merge_nodes-Settled}
use rknno_vpn.Profile.Edits.{remove_node-upsert_node}
use rknno_vpn.Profile.Tallies.{tally, normalize_subscriptions-tally}
use rknno_vpn.Profile.Accepted.{normalize-ValidDocument, distinct-merge_nodes-normalize}
use rknno_vpn.Profile.Checks.{ValidDocument, Repaired}
use rknno_vpn.Profile.Samples.{letters, world, node, far, sub, document}

-- A node entered by hand whose id a node of the subscription has, and the node of the subscription
-- again, which is stale now.
abbrev incoming : List Node
incoming =
    record node { id = "f"; server = "g.example" } ∷ record far { id = "x"; stale = true } ∷ []

abbrev unready : Document
unready = record document { active_node_id = "gone"; subscriptions = sub ∷ [] }

normalized : normalize world document ≡ ok (document, [])
unfolding normalize normalize_node contains trim_space is_space to_upper
    is_disallowed_subscription_endpoint trim_suffix trim_of to_lower trim_prefix has_prefix
    has_suffix has_live normalize_subscriptions first_non_empty_trimmed normalize_protocol
    sort_texts lookup put
normalized = refl

contains-unique_imported_node_id_example :
    contains ("f" ∷ "a" ∷ []) (unique_imported_node_id far ("f" ∷ "a" ∷ [])) ≡ false
contains-unique_imported_node_id_example = contains-unique_imported_node_id far ("f" ∷ "a" ∷ [])

merge_nodes-Settled_example :
    let next = (merge_nodes letters document incoming).0 in Settled next.nodes next.active_node_id
merge_nodes-Settled_example = merge_nodes-Settled letters document incoming

distinct-merge_nodes-normalize_example :
    distinct (ids (merge_nodes letters document incoming).0.nodes) ≡ true
distinct-merge_nodes-normalize_example =
    distinct-merge_nodes-normalize world document document [] letters incoming normalized

normalize-ValidDocument_example :
    ValidDocument world document × Repaired document.active_node_id document []
normalize-ValidDocument_example = normalize-ValidDocument world document document [] normalized

normalize_subscriptions-tally_example :
    All
      (λ sub.
        (sub.last_seen_node_count ≡ tally false sub.provider_key document.nodes)
        × (sub.stale_node_count ≡ tally true sub.provider_key document.nodes))
      (normalize_subscriptions (sub ∷ []) document.nodes)
normalize_subscriptions-tally_example = normalize_subscriptions-tally (sub ∷ []) document.nodes

place-merge_nodes_example :
    get_elem? (merge_nodes letters document incoming).0.nodes 1
    ≡ some (elim (first_of letters "SUBSCRIPTION:p|link:vless://f" incoming) [
      | none ↦ far
      | some other ↦ taken_over far other
    ])
unfolding last_index node_match_key to_upper trim_space is_space
place-merge_nodes_example =
    place-merge_nodes letters document incoming "SUBSCRIPTION:p|link:vless://f" 1 far refl refl refl

abbrev without_a : Document
without_a = record document { nodes = far ∷ []; active_node_id = "f" }

abbrev other : Node
other = record node { id = "b" }

abbrev with_b : Document
with_b = record document { nodes = node ∷ far ∷ other ∷ [] }

remove_node-upsert_node_example :
    (last : Document) × (remove_node with_b "b" ≡ edited last) × (last.nodes ≡ document.nodes)
unfolding upsert_node has_node
remove_node-upsert_node_example = remove_node-upsert_node document with_b other refl refl

-- The node entered by hand is added at each of two imports of the same nodes.
added_twice :
    let once = merge_nodes letters document incoming in
    let twice = merge_nodes letters once.0 incoming in (once.1.added ≡ 1) × (twice.1.added ≡ 1)
unfolding merge_nodes node_match_key lookup put to_upper trim_space is_space contains
    unique_imported_node_id join decimal itoa merge_node
added_twice = (refl, refl)
