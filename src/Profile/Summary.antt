-- ===== src/Profile/Summary.antt =====
-- The subscriptions of a profile with the counts of their nodes (`normalizeSubscriptions` of
-- profile.go).
use rknno_vpn.Prelude.{
  ◌+◌, String, not, ◌||◌, List, [], ◌∷◌, none, some, str_eq, is_empty, trim_space, StringMap,
  lookup, put, sort_texts, if◌then◌else◌,
}
use rknno_vpn.Profile.Types.{Node, Subscription}

abbrev pub cleared : Subscription → Subscription
cleared sub = record sub {
  provider_key = trim_space sub.provider_key;
  url = trim_space sub.url;
  last_seen_node_count = 0;
  stale_node_count = 0;
}

-- `byKey` after the loop over the subscriptions.
unfoldable pub by_provider : List Subscription → StringMap Subscription → StringMap Subscription
by_provider [] map = map
by_provider (given ∷ subs) map =
    let sub = cleared given in
    by_provider subs
      (if is_empty sub.provider_key || is_empty sub.url then map else put map sub.provider_key sub)

-- One round of the loop over the nodes.
unfoldable pub count_node : Node → StringMap Subscription → StringMap Subscription
count_node node map =
    let key = node.source.provider_key in
    if not (str_eq node.source.type "SUBSCRIPTION") || is_empty key
    then map
    else elim (lookup key map) [
      | none ↦ map
      | some sub ↦ put map key (
          if node.stale
          then record sub { stale_node_count = sub.stale_node_count + 1 }
          else record sub { last_seen_node_count = sub.last_seen_node_count + 1 })
    ]

unfoldable pub count_nodes : List Node → StringMap Subscription → StringMap Subscription
unfolding count_node
count_nodes [] map = map
count_nodes (node ∷ nodes) map = count_nodes nodes (count_node node map)

unfoldable pub map_keys : StringMap Subscription → List String
map_keys [] = []
map_keys (entry ∷ entries) = entry.0 ∷ map_keys entries

-- The values of the keys, in the order of the keys.
unfoldable pub values : StringMap Subscription → List String → List Subscription
values map [] = []
values map (key ∷ keys) =
    let rest = values map keys in elim (lookup key map) [ none ↦ rest | some sub ↦ sub ∷ rest ]

unfoldable pub normalize_subscriptions : List Subscription → List Node → List Subscription
unfolding by_provider count_nodes map_keys values
normalize_subscriptions subscriptions nodes =
    let map = count_nodes nodes (by_provider subscriptions []) in
    values map (sort_texts (map_keys map))
