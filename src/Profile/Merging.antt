-- ===== src/Profile/Merging.antt =====
-- The loop over the imported nodes (`MergeNodes` of profile.go), step by step.
use rknno_vpn.Prelude.{
  ℕ, suc, ◌+◌, ◌≡◌, refl, inl, inr, String, false, ◌||◌, List, [], ◌∷◌, none, some, arith, contains,
  str_eq, eq_iff, is_empty, CaseMap, StringMap, lookup, put, lookup-put_self, lookup-put_ne,
  Bool-cases, Option-cases,
}
use rknno_vpn.Prelude.{get_elem?}
use rknno_vpn.Profile.Types.{Node}
use rknno_vpn.Profile.Keys.{node_match_key}
use rknno_vpn.Profile.Merge.{Merging, by_key, update_node, add_node, merge_node, merge_all}

-- Every index of the map is that of a node of the key.
abbrev pub Keyed : CaseMap → List Node → StringMap ℕ → Type 0
Keyed m nodes keys =
    (key : String) (i : ℕ)
    → lookup key keys ≡ some i
    → (node : Node) × (get_elem? nodes i ≡ some node) × (node_match_key m node ≡ key)

Keyed-put :
    (m : CaseMap) (all : List Node) (keys : StringMap ℕ) (node : Node) (i : ℕ)
    → Keyed m all keys
    → get_elem? all i ≡ some node
    → Keyed m all (put keys (node_match_key m node) i)
Keyed-put m all keys node i h e key j f = elim (Bool-cases (str_eq (node_match_key m node) key)) [
  | inl same ↦
      let k = (eq_iff _ _).0 same in
      let g = rw (← k, lookup-put_self keys (node_match_key m node) i) at f in
      (node, rw (← (let q : i ≡ j = cc g in q)) e, k)
  | inr other ↦ h key j (rw (lookup-put_ne keys _ key i other) at f)
]

by_key-Keyed :
    (m : CaseMap) (nodes : List Node) (all : List Node) (i : ℕ) (keys : StringMap ℕ)
    → Keyed m all keys
    → ((j : ℕ) → get_elem? all (i + j) ≡ get_elem? nodes j)
    → Keyed m all (by_key m nodes i keys)
unfolding by_key
by_key-Keyed m [] all i keys h e = h
by_key-Keyed m (node ∷ nodes) all i keys h e =
    let here : get_elem? all i ≡ some node = rw (← (let q : i + 0 ≡ i = omega arith in q)) (e 0) in
    let later : (j : ℕ) → get_elem? all (suc i + j) ≡ get_elem? nodes j =
      λ j. rw (let q : suc i + j ≡ i + suc j = omega arith in q) (e (suc j)) in
    elim (Bool-cases (is_empty (node_match_key m node))) [
      | inl no_key ↦ rw no_key (by_key-Keyed m nodes all (suc i) keys h later)
      | inr has_key ↦
          rw has_key (by_key-Keyed m nodes all (suc i) _ (Keyed-put m all keys node i h here) later)
    ]

-- The map that the merge makes.
pub by_key_lem : (m : CaseMap) (nodes : List Node) → Keyed m nodes (by_key m nodes 0 [])
unfolding lookup
by_key_lem m nodes =
    by_key-Keyed m nodes nodes 0 [] (λ key i e. absurd (cc e))
      (λ j. rw (let q : 0 + j ≡ j = omega arith in q) refl)

abbrev pub marked : String → Merging → Merging
marked key st = record st { seen = key ∷ st.seen }

-- What every round keeps, the loop keeps.
module _ (m : CaseMap) (keys : StringMap ℕ) (P : Merging → Type 0)
    (updates : (st : Merging) (node : Node) (i : ℕ) (existing : Node)
      → P st
      → contains st.seen (node_match_key m node) ≡ false
      → lookup (node_match_key m node) keys ≡ some i
      → get_elem? st.nodes i ≡ some existing
      → P (update_node i existing node (marked (node_match_key m node) st)))
    (loses : (st : Merging) (node : Node) (i : ℕ)
      → P st
      → lookup (node_match_key m node) keys ≡ some i
      → get_elem? st.nodes i ≡ none
      → P (marked (node_match_key m node) st))
    (adds : (st : Merging) (node : Node)
      → P st
      → contains st.seen (node_match_key m node) ≡ false
      → lookup (node_match_key m node) keys ≡ none
      → P (add_node node (marked (node_match_key m node) st))) where
  merge_node_rule : (node : Node) (st : Merging) → P st → P (merge_node m keys node st)
  unfolding merge_node
  merge_node_rule node st p =
      let key = node_match_key m node in
      elim (Bool-cases (is_empty key || contains st.seen key)) [
        | inl e ↦ rw (merge_node, e) p
        | inr e ↦ elim (Option-cases (lookup key keys)) [
          | inl new ↦ rw (merge_node, e, new) (adds st node p (ground (arith, e)) new)
          | inr (i, old) ↦ elim (Option-cases (get_elem? st.nodes i)) [
            | inl lost ↦ rw (merge_node, e, old, lost) (loses st node i p old lost)
            | inr (existing, at) ↦
                rw (merge_node, e, old, at)
                  (updates st node i existing p (ground (arith, e)) old at)
          ]
        ]
      ]

  pub merge_all_rule :
      (incoming : List Node) (st : Merging) → P st → P (merge_all m keys incoming st)
  unfolding merge_all
  merge_all_rule [] st p = p
  merge_all_rule (node ∷ incoming) st p =
      merge_all_rule incoming (merge_node m keys node st) (merge_node_rule node st p)
