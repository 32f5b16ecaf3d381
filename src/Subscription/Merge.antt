-- ===== src/Subscription/Merge.antt =====
-- The merge of the nodes that a subscription gives (merge.go). The slices of the given documents that
-- are written to are not modelled, only the document that is returned.
use rknno_vpn.Prelude.{
  ℕ, ◌+◌, String, Bool, true, false, not, ◌&&◌, ◌||◌, List, [], ◌∷◌, ◌++◌, none, some, map, str_eq,
  is_empty, trim_space, contains, equal_fold, CaseMap, StringMap, lookup, put, if◌then◌else◌,
}
use rknno_vpn.Profile.Types.{Node, Subscription, Document}
use rknno_vpn.Profile.Keys.{node_match_key, first_live_id}
use rknno_vpn.Profile.Merge.{MergeStats, no_stats, merge_nodes}

-- An imported node as one of the subscription.
abbrev pub stamp_node : Subscription → Node → Node
stamp_node sub node =
    let source = node.source in
    record node {
      source = record source {
        type = "SUBSCRIPTION";
        provider_key = sub.provider_key;
        url = sub.url;
      };
    }

-- The keys of the nodes that have one, each once, behind those of `seen`.
unfoldable pub ordered_node_match_keys : CaseMap → List String → List Node → List String
ordered_node_match_keys m seen [] = []
ordered_node_match_keys m seen (node ∷ nodes) =
    let key = node_match_key m node in
    let skipped = ordered_node_match_keys m seen nodes in
    let rest = ordered_node_match_keys m (key ∷ seen) nodes in
    if is_empty key || contains seen key then skipped else key ∷ rest

-- `seenIncoming`: the keys of the nodes that have one.
unfoldable pub seen_incoming : CaseMap → List Node → List String
seen_incoming m [] = []
seen_incoming m (node ∷ nodes) =
    let rest = seen_incoming m nodes in
    if is_empty (node_match_key m node) then rest else node_match_key m node ∷ rest

unfoldable pub is_provider_node : CaseMap → String → Node → Bool
is_provider_node m provider node =
    equal_fold m node.source.type "SUBSCRIPTION" && str_eq node.source.provider_key provider

-- Whether a node is one of the provider that it does not give any more.
abbrev pub is_gone : CaseMap → String → List String → Node → Bool
is_gone m provider seen node =
    is_provider_node m provider node && not (contains seen (node_match_key m node))

-- The loop that marks such nodes, and how many of them were not stale.
unfoldable pub mark_stale : CaseMap → String → List String → List Node → List Node × ℕ
mark_stale m provider seen [] = ([], 0)
mark_stale m provider seen (node ∷ nodes) =
    let (rest, count) = mark_stale m provider seen nodes in
    if is_gone m provider seen node
    then (record node { stale = true } ∷ rest, if node.stale then count else count + 1)
    else (node ∷ rest, count)

-- `providerByKey`: of nodes of the same key the last.
unfoldable pub provider_by_key : CaseMap → String → List Node → StringMap Node → StringMap Node
provider_by_key m provider [] found = found
provider_by_key m provider (node ∷ nodes) found =
    let key = node_match_key m node in
    provider_by_key m provider nodes
      (if is_provider_node m provider node && not (is_empty key) then put found key node else found)

unfoldable pub has_provider_nodes : CaseMap → String → List Node → Bool
has_provider_nodes m provider [] = false
has_provider_nodes m provider (node ∷ nodes) =
    is_provider_node m provider node || has_provider_nodes m provider nodes

-- The nodes of the keys in their order, and the keys that have one.
unfoldable pub in_order : StringMap Node → List String → List Node × List String
in_order found [] = ([], [])
in_order found (key ∷ keys) =
    let (nodes, used) = in_order found keys in
    elim (lookup key found) [ none ↦ (nodes, used) | some node ↦ (node ∷ nodes, key ∷ used) ]

-- The provider's nodes whose key is not used.
unfoldable pub left_over : CaseMap → String → List String → List Node → List Node
left_over m provider used [] = []
left_over m provider used (node ∷ nodes) =
    let key = node_match_key m node in
    let rest = left_over m provider used nodes in
    if not (is_provider_node m provider node) || (not (is_empty key) && contains used key)
    then rest
    else node ∷ rest

unfoldable pub replace_provider_nodes : CaseMap → String → List Node → Bool → List Node → List Node
replace_provider_nodes m provider ordered inserted [] = []
replace_provider_nodes m provider ordered inserted (node ∷ nodes) =
    let mine = is_provider_node m provider node in
    let rest = replace_provider_nodes m provider ordered (inserted || mine) nodes in
    if mine then (if inserted then rest else ordered ++ rest) else node ∷ rest

unfoldable pub reorder_provider_nodes : CaseMap → String → List String → List Node → List Node
unfolding provider_by_key has_provider_nodes in_order left_over replace_provider_nodes
reorder_provider_nodes m provider order nodes =
    if is_empty provider || not (has_provider_nodes m provider nodes)
    then nodes
    else (let (first, used) = in_order (provider_by_key m provider nodes []) order in
        replace_provider_nodes m provider (first ++ left_over m provider used nodes) false nodes)

-- The first node of the id decides.
unfoldable pub active_node_is_stale_or_missing : List Node → String → Bool
active_node_is_stale_or_missing [] active = true
active_node_is_stale_or_missing (node ∷ nodes) active =
    let rest = active_node_is_stale_or_missing nodes active in
    if is_empty active then true else if str_eq node.id active then node.stale else rest

-- The profile behind the merge of the nodes: gone nodes stale, the provider's nodes in order.
unfoldable pub settle : CaseMap → String → List Node → Document → Document × ℕ
unfolding mark_stale reorder_provider_nodes active_node_is_stale_or_missing
settle m provider incoming merged =
    let (marked, count) = mark_stale m provider (seen_incoming m incoming) merged.nodes in
    let nodes = reorder_provider_nodes m provider (ordered_node_match_keys m [] incoming) marked in
    (
      record merged {
        nodes = nodes;
        active_node_id =
            if active_node_is_stale_or_missing nodes merged.active_node_id
            then first_live_id nodes
            else merged.active_node_id;
      },
      count,
    )

unfoldable pub merge_subscription_nodes :
    CaseMap → Document → Subscription → List Node → Document × MergeStats
merge_subscription_nodes m current given nodes =
    let sub = record given {
      provider_key = trim_space given.provider_key;
      url = trim_space given.url;
    } in
    if is_empty sub.provider_key
    then (current, no_stats)
    else (let incoming = map (stamp_node sub) nodes in
        let (merged, stats) = merge_nodes m current incoming in
        let (next, count) = settle m sub.provider_key incoming merged in
        (next, record stats { stale = stats.stale + count }))
