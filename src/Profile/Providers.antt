-- ===== src/Profile/Providers.antt =====
-- Which subscriptions a profile keeps, and the counts of their nodes (`normalizeSubscriptions` of
-- profile.go).
use rknno_vpn.Prelude.{
  ◌≡◌, refl, ap, ◌∙◌, inl, inr, String, false, not, ◌&&◌, ◌||◌, List, [], ◌∷◌, some, is_some, arith,
  contains, contains-sort_texts, sort_texts, str_eq, eq_iff, is_empty, trim_space, StringMap,
  lookup, put, Bool-cases, Option-cases, All,
}
use rknno_vpn.Profile.Types.{Node, Subscription}
use rknno_vpn.Profile.Summary.{
  cleared, by_provider, count_node, count_nodes, map_keys, values, normalize_subscriptions,
}
use rknno_vpn.Profile.Normalize.{provider_keys}

-- Every entry stands under the key of its subscription, which is not empty.
abbrev pub Own : StringMap Subscription → Type 0
Own map = All (λ entry. (entry.1.provider_key ≡ entry.0) × (is_empty entry.0 ≡ false)) map

pub Own-put :
    (map : StringMap Subscription) (key : String) (sub : Subscription)
    → Own map
    → sub.provider_key ≡ key
    → is_empty key ≡ false
    → Own (put map key sub)
unfolding put
Own-put [] key sub h e n = ((e, n), tt)
Own-put (entry ∷ map) key sub h e n = elim (Bool-cases (str_eq entry.0 key)) [
  | inl same ↦ rw same ((e, n), h.1)
  | inr other ↦ rw other (h.0, Own-put map key sub h.1 e n)
]

pub Own-lookup :
    (map : StringMap Subscription) (key : String) (sub : Subscription)
    → Own map
    → lookup key map ≡ some sub
    → (sub.provider_key ≡ key) × (is_empty key ≡ false)
unfolding lookup
Own-lookup [] key sub h e = absurd (cc e)
Own-lookup (entry ∷ map) key sub h e = elim (Bool-cases (str_eq entry.0 key)) [
  | inl same ↦
      let k = (eq_iff entry.0 key).0 same in
      let q : entry.1 ≡ sub = ground (arith, same, e) in rw (← q, ← k) h.0
  | inr other ↦ Own-lookup map key sub h.1 (rw other at e)
]

contains-put :
    (map : StringMap Subscription) (key : String) (sub : Subscription) (x : String)
    → contains (map_keys (put map key sub)) x ≡ (str_eq key x || contains (map_keys map) x)
unfolding put map_keys contains
contains-put [] key sub x = refl
contains-put (entry ∷ map) key sub x =
    ground (arith, eq_iff entry.0 key, eq_iff entry.0 x, eq_iff key x, contains-put map key sub x)

is_some-lookup :
    (map : StringMap Subscription) (x : String) → is_some (lookup x map) ≡ contains (map_keys map) x
unfolding lookup map_keys contains
is_some-lookup [] x = refl
is_some-lookup (entry ∷ map) x = ground (arith, is_some-lookup map x)

contains-values :
    (map : StringMap Subscription) (keys : List String) (x : String)
    → Own map
    → contains (provider_keys (values map keys)) x ≡ (contains keys x && is_some (lookup x map))
unfolding values provider_keys contains
contains-values map [] x h = refl
contains-values map (key ∷ keys) x h = elim (Option-cases (lookup key map)) [
  | inl e ↦ rw (values, e) (ground (arith, e, eq_iff key x, contains-values map keys x h))
  | inr (sub, e) ↦
      let own = Own-lookup map key sub h e in
      rw (values, e, provider_keys, own.0)
        (ground (arith, e, eq_iff key x, contains-values map keys x h))
]

-- A subscription whose key and address are trimmed and there.
abbrev pub Complete : Subscription → Type 0
Complete sub =
    (trim_space sub.provider_key ≡ sub.provider_key)
    × (is_empty sub.provider_key ≡ false)
    × (trim_space sub.url ≡ sub.url)
    × (is_empty sub.url ≡ false)

pub by_provider-Own :
    (subs : List Subscription) (map : StringMap Subscription) → Own map → Own (by_provider subs map)
unfolding by_provider
by_provider-Own [] map h = h
by_provider-Own (sub ∷ subs) map h =
    elim (Bool-cases (is_empty (trim_space sub.provider_key) || is_empty (trim_space sub.url))) [
      | inl e ↦ rw e (by_provider-Own subs map h)
      | inr e ↦
          rw e (by_provider-Own subs _ (Own-put map _ (cleared sub) h refl (ground (arith, e))))
    ]

contains-by_provider :
    (subs : List Subscription) (map : StringMap Subscription) (x : String)
    → All Complete subs
    → contains (map_keys (by_provider subs map)) x
      ≡ (contains (provider_keys subs) x || contains (map_keys map) x)
unfolding by_provider provider_keys contains
contains-by_provider [] map x h = refl
contains-by_provider (sub ∷ subs) map x h =
    let c = h.0 in
    let key = trim_space sub.provider_key in
    let kept : (is_empty key || is_empty (trim_space sub.url)) ≡ false =
      rw (c.0, c.2, c.1, c.3) refl in
    let same : str_eq key x ≡ str_eq sub.provider_key x = ap (λ k. str_eq k x) c.0 in
    let ih = contains-by_provider subs (put map key (cleared sub)) x h.1 in
    let there = contains-put map key (cleared sub) x in rw kept (ground (arith, ih, there, same))

module _ (node : Node) (map : StringMap Subscription) (h : Own map) where
  pub count_node-Own : Own (count_node node map)
  unfolding count_node
  count_node-Own =
      let key = node.source.provider_key in
      elim (Bool-cases (not (str_eq node.source.type "SUBSCRIPTION") || is_empty key)) [
        | inl e ↦ rw e h
        | inr e ↦ elim (Option-cases (lookup key map)) [
          | inl f ↦ rw (e, f) h
          | inr (sub, f) ↦
              let own = Own-lookup map key sub h f in
              rw (e, f) (Own-put map key _ h (ground (arith, own)) own.1)
        ]
      ]

  contains-count_node :
      (x : String) → contains (map_keys (count_node node map)) x ≡ contains (map_keys map) x
  unfolding count_node
  contains-count_node x =
      let key = node.source.provider_key in
      elim (Bool-cases (not (str_eq node.source.type "SUBSCRIPTION") || is_empty key)) [
        | inl e ↦ rw e refl
        | inr e ↦ elim (Option-cases (lookup key map)) [
          | inl f ↦ rw (e, f) refl
          | inr (sub, f) ↦
              rw (e, f, contains-put)
                (let there = is_some-lookup map key in ground (arith, f, there, eq_iff key x))
        ]
      ]

pub count_nodes-Own :
    (nodes : List Node) (map : StringMap Subscription) → Own map → Own (count_nodes nodes map)
unfolding count_nodes
count_nodes-Own [] map h = h
count_nodes-Own (node ∷ nodes) map h =
    count_nodes-Own nodes (count_node node map) (count_node-Own node map h)

contains-count_nodes :
    (nodes : List Node) (map : StringMap Subscription) (x : String)
    → Own map
    → contains (map_keys (count_nodes nodes map)) x ≡ contains (map_keys map) x
unfolding count_nodes
contains-count_nodes [] map x h = refl
contains-count_nodes (node ∷ nodes) map x h =
    contains-count_nodes nodes (count_node node map) x (count_node-Own node map h)
    ∙ contains-count_node node map h x

-- The summary has the keys of the subscriptions and no other.
pub contains-normalize_subscriptions :
    (subs : List Subscription) (nodes : List Node) (x : String)
    → All Complete subs
    → contains (provider_keys (normalize_subscriptions subs nodes)) x
      ≡ contains (provider_keys subs) x
unfolding normalize_subscriptions map_keys contains
contains-normalize_subscriptions subs nodes x h =
    let first = by_provider subs [] in
    let own = by_provider-Own subs [] tt in
    let map = count_nodes nodes first in
    let a = contains-values map (sort_texts (map_keys map)) x (count_nodes-Own nodes first own) in
    let b = contains-sort_texts (map_keys map) x in
    let c = is_some-lookup map x in
    let d = contains-count_nodes nodes first x own in
    let e = contains-by_provider subs [] x h in ground (arith, a, b, c, d, e)
