-- ===== src/Subscription/Gone.antt =====
-- What becomes of the nodes that a subscription gives no more (`MergeSubscriptionNodes` of merge.go).
use rknno_vpn.Prelude.{
  ◌≡◌, refl, ap, ◌∙◌, inl, inr, ◌⊎◌, String, true, false, not, ◌&&◌, ◌||◌, List, [], ◌∷◌, ◌++◌,
  arith, is_empty, contains, CaseMap, StringMap, lookup, Bool-cases, Option-cases,
}
use rknno_vpn.Profile.Types.{Node}
use rknno_vpn.Profile.Keys.{node_match_key}
use rknno_vpn.Subscription.Merge.{
  ordered_node_match_keys, seen_incoming, is_provider_node, is_gone, mark_stale, provider_by_key,
  has_provider_nodes, in_order, left_over, replace_provider_nodes, reorder_provider_nodes,
}

-- A node is in a list.
abbrev pub Has : Node → List Node → Type 0
Has x [] = ⊥
Has x (y ∷ ys) = (x ≡ y) ⊎ Has x ys

Has-append_left : (x : Node) (ys zs : List Node) → Has x ys → Has x (ys ++ zs)
Has-append_left x [] zs h = absurd h
Has-append_left x (y ∷ ys) zs (inl e) = inl e
Has-append_left x (y ∷ ys) zs (inr h) = inr (Has-append_left x ys zs h)

Has-append_right : (x : Node) (ys zs : List Node) → Has x zs → Has x (ys ++ zs)
Has-append_right x [] zs h = h
Has-append_right x (y ∷ ys) zs h = inr (Has-append_right x ys zs h)

-- A key that the loop over the order takes is one of the order, and that one of a node given.
contains-in_order :
    (found : StringMap Node) (keys : List String) (key : String)
    → contains (in_order found keys).1 key ≡ true
    → contains keys key ≡ true
unfolding in_order contains
contains-in_order found [] key h = h
contains-in_order found (k ∷ keys) key h = elim (Option-cases (lookup k found)) [
  | inl e ↦ let ih = contains-in_order found keys key (rw (in_order, e) at h) in ground (arith, ih)
  | inr (node, e) ↦
      let ih = contains-in_order found keys key in
      let g = rw (in_order, e) at h in
      elim (Bool-cases (contains (in_order found keys).1 key)) [
        | inl f ↦ let k' = ih f in ground (arith, k')
        | inr f ↦ ground (arith, g, f)
      ]
]

contains-ordered :
    (m : CaseMap) (seen : List String) (nodes : List Node) (key : String)
    → contains (ordered_node_match_keys m seen nodes) key ≡ true
    → contains (seen_incoming m nodes) key ≡ true
unfolding ordered_node_match_keys seen_incoming contains
contains-ordered m seen [] key h = h
contains-ordered m seen (node ∷ nodes) key h =
    let skipped = contains-ordered m seen nodes key in
    let taken = contains-ordered m (node_match_key m node ∷ seen) nodes key in
    ground (arith, h, skipped, taken)

gone_stale :
    (m : CaseMap) (provider : String) (seen : List String) (x : Node)
    → is_gone m provider seen (record x { stale = true }) ≡ is_gone m provider seen x
unfolding is_provider_node node_match_key
gone_stale m provider seen x = refl

module _ (m : CaseMap) (provider : String) where
  Has-mark_stale :
      (seen : List String) (nodes : List Node) (x : Node)
      → Has x nodes
      → is_gone m provider seen x ≡ true
      → Has (record x { stale = true }) (mark_stale m provider seen nodes).0
  unfolding mark_stale
  Has-mark_stale seen [] x h g = absurd h
  Has-mark_stale seen (y ∷ ys) x (inl e) g =
      let here : is_gone m provider seen y ≡ true = rw (← e) g in
      rw (mark_stale, here) (inl (ap (λ (n : Node). record n { stale = true }) e))
  Has-mark_stale seen (y ∷ ys) x (inr h) g =
      let ih = Has-mark_stale seen ys x h g in
      elim (Bool-cases (is_gone m provider seen y)) [
        | inl e ↦ rw (mark_stale, e) (inr ih)
        | inr e ↦ rw (mark_stale, e) (inr ih)
      ]

  provider_found :
      (nodes : List Node) (x : Node)
      → Has x nodes
      → is_provider_node m provider x ≡ true
      → has_provider_nodes m provider nodes ≡ true
  unfolding has_provider_nodes
  provider_found [] x h p = absurd h
  provider_found (y ∷ ys) x (inl e) p =
      let here : is_provider_node m provider y ≡ true = rw (← e) p in rw here refl
  provider_found (y ∷ ys) x (inr h) p = let ih = provider_found ys x h p in ground (arith, ih)

  Has-left_over :
      (used : List String) (nodes : List Node) (x : Node)
      → Has x nodes
      → is_provider_node m provider x ≡ true
      → contains used (node_match_key m x) ≡ false
      → Has x (left_over m provider used nodes)
  unfolding left_over
  Has-left_over used [] x h p u = absurd h
  Has-left_over used (y ∷ ys) x (inl e) p u =
      let kept : (not (is_provider_node m provider y)
            || (not (is_empty (node_match_key m y)) && contains used (node_match_key m y)))
          ≡ false =
        rw (← e) (ground (arith, p, u)) in
      rw kept (inl e)
  Has-left_over used (y ∷ ys) x (inr h) p u =
      let ih = Has-left_over used ys x h p u in
      let key = node_match_key m y in
      elim (Bool-cases
        (not (is_provider_node m provider y) || (not (is_empty key) && contains used key))) [
          | inl e ↦ rw e ih
          | inr e ↦ rw e (inr ih)
        ]

  Has-replace :
      (ordered nodes : List Node) (x : Node)
      → Has x ordered
      → has_provider_nodes m provider nodes ≡ true
      → Has x (replace_provider_nodes m provider ordered false nodes)
  unfolding replace_provider_nodes has_provider_nodes
  Has-replace ordered [] x h p = absurd (cc p)
  Has-replace ordered (y ∷ ys) x h p = elim (Bool-cases (is_provider_node m provider y)) [
    | inl e ↦ rw e (Has-append_left x ordered _ h)
    | inr e ↦ rw e (inr (Has-replace ordered ys x h (rw e at p)))
  ]

  -- The order keeps each node of the provider whose key no node given has.
  pub Has-reorder :
      (incoming nodes : List Node) (x : Node)
      → Has x nodes
      → is_gone m provider (seen_incoming m incoming) x ≡ true
      → Has x (reorder_provider_nodes m provider (ordered_node_match_keys m [] incoming) nodes)
  unfolding reorder_provider_nodes
  Has-reorder incoming nodes x h g =
      let order = ordered_node_match_keys m [] incoming in
      let used = (in_order (provider_by_key m provider nodes []) order).1 in
      let mine : is_provider_node m provider x ≡ true = ground (arith, g) in
      let unseen : contains (seen_incoming m incoming) (node_match_key m x) ≡ false =
        ground (arith, g) in
      let unused : contains used (node_match_key m x) ≡ false =
        elim (Bool-cases (contains used (node_match_key m x))) [
          | inr e ↦ e
          | inl e ↦
              let f = contains-ordered m [] incoming (node_match_key m x) (
                contains-in_order (provider_by_key m provider nodes []) order (node_match_key m x)
                  e) in
              absurd (cc (f, unseen))
        ] in
      let some_mine = provider_found nodes x h mine in
      elim (Bool-cases (is_empty provider || not (has_provider_nodes m provider nodes))) [
        | inl e ↦ rw e h
        | inr e ↦ rw e (
            Has-replace _ nodes x
              (Has-append_right x (in_order (provider_by_key m provider nodes []) order).0 _
                (Has-left_over used nodes x h mine unused))
              some_mine)
      ]

  -- A gone node is kept, stale.
  pub Has-gone :
      (incoming nodes : List Node) (x : Node)
      → Has x nodes
      → is_gone m provider (seen_incoming m incoming) x ≡ true
      → Has
          (record x { stale = true })
          (reorder_provider_nodes m provider
            (ordered_node_match_keys m [] incoming)
            (mark_stale m provider (seen_incoming m incoming) nodes).0)
  Has-gone incoming nodes x h g =
      let seen = seen_incoming m incoming in
      let same : is_gone m provider seen (record x { stale = true }) ≡ is_gone m provider seen x =
        gone_stale m provider seen x in
      Has-reorder incoming (mark_stale m provider seen nodes).0 (record x { stale = true })
        (Has-mark_stale seen nodes x h g) (same ∙ g)
