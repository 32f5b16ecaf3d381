-- ===== src/Profile/Tallies.antt =====
-- The counts of the nodes of a subscription (`normalizeSubscriptions` of profile.go).
use rknno_vpn.Prelude.{
  ℕ, ◌+◌, ◌≡◌, refl, sym, ◌∙◌, inl, inr, String, Bool, true, false, not, ◌&&◌, ◌||◌, List, [], ◌∷◌,
  some, arith, str_eq, eq_iff, is_empty, trim_space, StringMap, lookup, put, lookup-put_self,
  lookup-put_ne, if◌then◌else◌, Bool-cases, Option-cases, All,
}
use rknno_vpn.Profile.Types.{Node, Subscription}
use rknno_vpn.Profile.Summary.{
  cleared, by_provider, count_node, count_nodes, values, normalize_subscriptions,
}
use rknno_vpn.Profile.Providers.{Own, Own-lookup, by_provider-Own, count_node-Own, count_nodes-Own}

-- How many nodes of a provider are stale, or are not.
unfoldable pub tally : Bool → String → List Node → ℕ
tally stale key [] = 0
tally stale key (node ∷ nodes) =
    let same = if stale then node.stale else not node.stale in
    let mine =
      str_eq node.source.type "SUBSCRIPTION" && str_eq node.source.provider_key key && same in
    (if mine then 1 else 0) + tally stale key nodes

-- Every subscription of the map has these counts.
abbrev Tallied : (String → ℕ) → (String → ℕ) → StringMap Subscription → Type 0
Tallied live stale map =
    (key : String) (sub : Subscription)
    → lookup key map ≡ some sub
    → (sub.last_seen_node_count ≡ live key) × (sub.stale_node_count ≡ stale key)

-- A subscription of the map takes the place of one, with other counts.
Tallied-put :
    (live stale live' stale' : String → ℕ) (map : StringMap Subscription) (key : String)
    (sub : Subscription)
    → Tallied live stale map
    → sub.last_seen_node_count ≡ live' key
    → sub.stale_node_count ≡ stale' key
    → ((other : String)
        → str_eq key other ≡ false
        → (live' other ≡ live other) × (stale' other ≡ stale other))
    → Tallied live' stale' (put map key sub)
Tallied-put live stale live' stale' map key sub h a b same other found e =
    elim (Bool-cases (str_eq key other)) [
      | inl k ↦
          let q = (eq_iff key other).0 k in
          let f = rw (← q, lookup-put_self map key sub) at e in
          let g : found ≡ sub = cc f in rw (g, ← q) (a, b)
      | inr k ↦
          let f = rw (lookup-put_ne map key other sub k) at e in
          let g = h other found f in let s = same other k in (g.0 ∙ sym s.0, g.1 ∙ sym s.1)
    ]

by_provider-Tallied :
    (subs : List Subscription) (map : StringMap Subscription)
    → Tallied (λ _. 0) (λ _. 0) map
    → Tallied (λ _. 0) (λ _. 0) (by_provider subs map)
unfolding by_provider
by_provider-Tallied [] map h = h
by_provider-Tallied (sub ∷ subs) map h =
    elim (Bool-cases (is_empty (trim_space sub.provider_key) || is_empty (trim_space sub.url))) [
      | inl e ↦ rw e (by_provider-Tallied subs map h)
      | inr e ↦ rw e (
          by_provider-Tallied subs _
            (Tallied-put _ _ _ _ map _ (cleared sub) h refl refl (λ other k. (refl, refl))))
    ]

tally_cons :
    (stale : Bool) (key : String) (node : Node) (nodes : List Node)
    → tally stale key (node ∷ nodes) ≡ tally stale key (node ∷ []) + tally stale key nodes
unfolding tally
tally_cons stale key node nodes = ground arith

-- One node more.
count_node-Tallied :
    (live stale : String → ℕ) (node : Node) (map : StringMap Subscription)
    → Own map
    → Tallied live stale map
    → Tallied
        (λ key. live key + tally false key (node ∷ []))
        (λ key. stale key + tally true key (node ∷ []))
        (count_node node map)
unfolding count_node tally
count_node-Tallied live stale node map own h =
    let key = node.source.provider_key in
    elim (Bool-cases (not (str_eq node.source.type "SUBSCRIPTION") || is_empty key)) [
      | inl e ↦ rw e (λ other sub f.
          let g = h other sub f in
          let o = Own-lookup map other sub own f in ground (arith, e, g, o.1, eq_iff key other))
      | inr e ↦ elim (Option-cases (lookup key map)) [
        | inl f ↦
            rw (e, f)
              (λ other sub k. let g = h other sub k in ground (arith, e, f, g, k, eq_iff key other))
        | inr (sub, f) ↦
            let g = h key sub f in
            rw (e, f)
              (Tallied-put live stale _ _ map key _ h (ground (arith, e, g, eq_iff key key))
                (ground (arith, e, g, eq_iff key key))
                (λ other k. (ground (arith, k), ground (arith, k))))
      ]
    ]

count_nodes-Tallied :
    (nodes : List Node) (live stale : String → ℕ) (map : StringMap Subscription)
    → Own map
    → Tallied live stale map
    → Tallied
        (λ key. live key + tally false key nodes)
        (λ key. stale key + tally true key nodes)
        (count_nodes nodes map)
unfolding count_nodes
count_nodes-Tallied [] live stale map own h key sub e =
    unfold tally in let g = h key sub e in (omega (arith, g.0), omega (arith, g.1))
count_nodes-Tallied (node ∷ nodes) live stale map own h key sub e =
    let g =
      count_nodes-Tallied nodes _ _ (count_node node map) (count_node-Own node map own)
        (count_node-Tallied live stale node map own h) key sub e in
    (
      omega (arith, g.0, tally_cons false key node nodes),
      omega (arith, g.1, tally_cons true key node nodes),
    )

All-values :
    (P : Subscription → Type 0) (map : StringMap Subscription) (keys : List String)
    → ((key : String) (sub : Subscription) → lookup key map ≡ some sub → P sub)
    → All P (values map keys)
unfolding values
All-values P map [] h = tt
All-values P map (key ∷ keys) h = elim (Option-cases (lookup key map)) [
  | inl e ↦ rw (values, e) (All-values P map keys h)
  | inr (sub, e) ↦ rw (values, e) (h key sub e, All-values P map keys h)
]

-- A subscription of the result counts the nodes of its provider: those that are not stale as last seen,
-- and the stale ones.
pub normalize_subscriptions-tally :
    (subs : List Subscription) (nodes : List Node)
    → All
        (λ sub.
          (sub.last_seen_node_count ≡ tally false sub.provider_key nodes)
          × (sub.stale_node_count ≡ tally true sub.provider_key nodes))
        (normalize_subscriptions subs nodes)
unfolding normalize_subscriptions lookup
normalize_subscriptions-tally subs nodes =
    let first = by_provider subs [] in
    let own = by_provider-Own subs [] tt in
    let start = by_provider-Tallied subs [] (λ key sub e. absurd (cc e)) in
    All-values _ _ _ (λ key sub e.
      let k = (Own-lookup _ key sub (count_nodes-Own nodes first own) e).0 in
      let g = count_nodes-Tallied nodes _ _ first own start key sub e in
      rw k (omega (arith, g.0), omega (arith, g.1)))
