-- ===== src/Subscription/Order.antt =====
-- What the order of a provider's nodes keeps (`reorderProviderNodes` of merge.go).
use rknno_vpn.Prelude.{
  ◌≡◌, refl, ap, ◌∙◌, inl, inr, String, Bool, true, false, not, ◌&&◌, ◌||◌, List, [], ◌∷◌, ◌++◌,
  some, arith, str_eq, eq_iff, is_empty, contains, CaseMap, StringMap, lookup, put, lookup-put_self,
  lookup-put_ne, if◌then◌else◌, Bool-cases, Option-cases, All,
}
use rknno_vpn.Profile.Types.{Node}
use rknno_vpn.Profile.Keys.{node_match_key}
use rknno_vpn.Subscription.Merge.{
  is_provider_node, provider_by_key, has_provider_nodes, in_order, left_over,
  replace_provider_nodes, reorder_provider_nodes,
}

-- The nodes that are not the provider's.
unfoldable pub foreign : CaseMap → String → List Node → List Node
foreign m provider [] = []
foreign m provider (node ∷ nodes) =
    let rest = foreign m provider nodes in
    if is_provider_node m provider node then rest else node ∷ rest

All-append : (P : Node → Type 0) (xs ys : List Node) → All P xs → All P ys → All P (xs ++ ys)
All-append P [] ys h k = k
All-append P (x ∷ xs) ys h k = (h.0, All-append P xs ys h.1 k)

foreign-append :
    (m : CaseMap) (provider : String) (P : Node → Type 0) (xs ys : List Node)
    → All (λ node. (is_provider_node m provider node ≡ true) × P node) xs
    → foreign m provider (xs ++ ys) ≡ foreign m provider ys
unfolding foreign
foreign-append m provider P [] ys h = refl
foreign-append m provider P (x ∷ xs) ys h = rw h.0.0 (foreign-append m provider P xs ys h.1)

module _ (m : CaseMap) (provider : String) (P : Node → Type 0) where
  -- One of the provider's nodes with the property.
  abbrev Mine : Node → Type 0
  Mine node = (is_provider_node m provider node ≡ true) × P node

  abbrev Found : StringMap Node → Type 0
  Found found = (key : String) (node : Node) → lookup key found ≡ some node → Mine node

  Found-put :
      (found : StringMap Node) (key : String) (node : Node)
      → Found found
      → Mine node
      → Found (put found key node)
  Found-put found key node h k other next e = elim (Bool-cases (str_eq key other)) [
    | inl same ↦
        let f = rw (← (eq_iff key other).0 same, lookup-put_self found key node) at e in
        let g : next ≡ node = cc f in rw g k
    | inr apart ↦ h other next (rw (lookup-put_ne found key other node apart) at e)
  ]

  provider_by_key-Found :
      (nodes : List Node) (found : StringMap Node)
      → All P nodes
      → Found found
      → Found (provider_by_key m provider nodes found)
  unfolding provider_by_key
  provider_by_key-Found [] found h k = k
  provider_by_key-Found (node ∷ nodes) found h k =
      elim (Bool-cases
        (is_provider_node m provider node && not (is_empty (node_match_key m node)))) [
          | inl e ↦ rw e (
              provider_by_key-Found nodes _ h.1 (Found-put found _ node k (ground (arith, e), h.0)))
          | inr e ↦ rw e (provider_by_key-Found nodes found h.1 k)
        ]

  in_order-Mine :
      (found : StringMap Node) (keys : List String) → Found found → All Mine (in_order found keys).0
  unfolding in_order
  in_order-Mine found [] h = tt
  in_order-Mine found (key ∷ keys) h = elim (Option-cases (lookup key found)) [
    | inl e ↦ rw (in_order, e) (in_order-Mine found keys h)
    | inr (node, e) ↦ rw (in_order, e) (h key node e, in_order-Mine found keys h)
  ]

  left_over-Mine :
      (used : List String) (nodes : List Node)
      → All P nodes
      → All Mine (left_over m provider used nodes)
  unfolding left_over
  left_over-Mine used [] h = tt
  left_over-Mine used (node ∷ nodes) h =
      let key = node_match_key m node in
      elim (Bool-cases
        (not (is_provider_node m provider node) || (not (is_empty key) && contains used key))) [
          | inl e ↦ rw e (left_over-Mine used nodes h.1)
          | inr e ↦ rw e ((ground (arith, e), h.0), left_over-Mine used nodes h.1)
        ]

  All-Mine : (nodes : List Node) → All Mine nodes → All P nodes
  All-Mine [] h = tt
  All-Mine (node ∷ nodes) h = (h.0.1, All-Mine nodes h.1)

  foreign-replace :
      (ordered : List Node) (inserted : Bool) (nodes : List Node)
      → All Mine ordered
      → foreign m provider (replace_provider_nodes m provider ordered inserted nodes)
        ≡ foreign m provider nodes
  unfolding foreign replace_provider_nodes
  foreign-replace ordered inserted [] h = refl
  foreign-replace ordered inserted (node ∷ nodes) h =
      let rest = replace_provider_nodes m provider ordered true nodes in
      elim (Bool-cases (is_provider_node m provider node)) [
        | inr e ↦
            rw (e, foreign, e)
              (ap (λ (ns : List Node). node ∷ ns)
                (foreign-replace ordered (inserted || false) nodes h))
        | inl e ↦ elim (Bool-cases inserted) [
          | inl f ↦ rw (e, f) (foreign-replace ordered true nodes h)
          | inr f ↦
              rw (e, f)
                (foreign-append m provider P ordered rest h ∙ foreign-replace ordered true nodes h)
        ]
      ]

  All-replace :
      (ordered : List Node) (inserted : Bool) (nodes : List Node)
      → All P ordered
      → All P nodes
      → All P (replace_provider_nodes m provider ordered inserted nodes)
  unfolding replace_provider_nodes
  All-replace ordered inserted [] h k = tt
  All-replace ordered inserted (node ∷ nodes) h k =
      let rest = All-replace ordered true nodes h k.1 in
      elim (Bool-cases (is_provider_node m provider node)) [
        | inr e ↦ rw e (k.0, All-replace ordered (inserted || false) nodes h k.1)
        | inl e ↦ elim (Bool-cases inserted) [
          | inl f ↦ rw (e, f) rest
          | inr f ↦ rw (e, f) (All-append P ordered _ h rest)
        ]
      ]

  ordered-Mine :
      (order : List String) (nodes : List Node)
      → All P nodes
      → let (first, used) = in_order (provider_by_key m provider nodes []) order in
        All Mine (first ++ left_over m provider used nodes)
  unfolding lookup
  ordered-Mine order nodes h =
      All-append Mine _ _
        (in_order-Mine _ order (provider_by_key-Found nodes [] h (λ key node e. absurd (cc e))))
        (left_over-Mine _ nodes h)

  pub foreign-reorder :
      (order : List String) (nodes : List Node)
      → All P nodes
      → foreign m provider (reorder_provider_nodes m provider order nodes)
        ≡ foreign m provider nodes
  unfolding reorder_provider_nodes
  foreign-reorder order nodes h =
      elim (Bool-cases (is_empty provider || not (has_provider_nodes m provider nodes))) [
        | inl e ↦ rw e refl
        | inr e ↦ rw e (foreign-replace _ false nodes (ordered-Mine order nodes h))
      ]

  pub All-reorder :
      (order : List String) (nodes : List Node)
      → All P nodes
      → All P (reorder_provider_nodes m provider order nodes)
  unfolding reorder_provider_nodes
  All-reorder order nodes h =
      elim (Bool-cases (is_empty provider || not (has_provider_nodes m provider nodes))) [
        | inl e ↦ rw e h
        | inr e ↦ rw e (All-replace _ false nodes (All-Mine _ (ordered-Mine order nodes h)) h)
      ]
