-- ===== src/Profile/Places.antt =====
-- What a merge writes to the place of a node (`MergeNodes` of profile.go).
use rknno_vpn.Prelude.{
  ℕ, ◌≡◌, ◌≢◌, refl, sym, ap, ◌∙◌, inl, inr, String, Bool, true, false, ◌||◌, List, [], ◌∷◌, Option,
  none, some, arith, contains, str_eq, eq_iff, is_empty, CaseMap, StringMap, lookup, if◌then◌else◌,
  Bool-cases, Option-cases,
}
use rknno_vpn.Prelude.{get_elem?, set, get_elem?-set_self, get_elem?-set_ne, get_elem?-append}
use rknno_vpn.Profile.Types.{Node, Document}
use rknno_vpn.Profile.Keys.{node_match_key}
use rknno_vpn.Profile.Merge.{
  Merging, by_key, replacement, update_node, add_node, merge_node, merge_all, merge_start,
  merge_nodes,
}
use rknno_vpn.Profile.Merging.{Keyed, by_key_lem}
use rknno_vpn.Profile.Identity.{nodes-add_node}

pub nodes-update_node :
    (i : ℕ) (existing node : Node) (st : Merging)
    → (update_node i existing node st).nodes ≡ set st.nodes i (replacement existing node)
unfolding update_node
nodes-update_node i existing node st = ground arith

pub seen-update_node :
    (i : ℕ) (existing node : Node) (st : Merging) → (update_node i existing node st).seen ≡ st.seen
unfolding update_node
seen-update_node i existing node st = ground arith

pub seen-add_node : (node : Node) (st : Merging) → (add_node node st).seen ≡ st.seen
unfolding add_node
seen-add_node node st = ground arith

-- Different keys have different indices.
pub key_of_index :
    (m : CaseMap) (nodes : List Node) (keys : StringMap ℕ) (key other : String) (i : ℕ)
    → Keyed m nodes keys
    → lookup key keys ≡ some i
    → lookup other keys ≡ some i
    → key ≡ other
key_of_index m nodes keys key other i h e f =
    let a = h key i e in
    let b = h other i f in
    let same : a.0 ≡ b.0 = ground (arith, a.1, b.1) in sym a.2 ∙ ap (node_match_key m) same ∙ b.2

-- The first imported node of a key.
unfoldable pub first_of : CaseMap → String → List Node → Option Node
first_of m key [] = none
first_of m key (node ∷ nodes) =
    if str_eq (node_match_key m node) key then some node else first_of m key nodes

module _ (m : CaseMap) (nodes : List Node) (keys : StringMap ℕ) (h : Keyed m nodes keys)
    (key : String) (i : ℕ) (at : lookup key keys ≡ some i) where
  record Place (seen : Bool) (node : Node) (st : Merging) : Type 0 where
    pub holds : get_elem? st.nodes i ≡ some node
    pub noted : contains st.seen key ≡ seen

  other_node :
      (seen : Bool) (x node : Node) (st : Merging)
      → str_eq (node_match_key m node) key ≡ false
      → Place seen x st
      → Place seen x (merge_node m keys node st)
  unfolding merge_node contains
  other_node seen x node st ne p =
      let other = node_match_key m node in
      elim (Bool-cases (is_empty other || contains st.seen other)) [
        | inl e ↦ rw (merge_node, e) p
        | inr e ↦ elim (Option-cases (lookup other keys)) [
          | inl new ↦
              rw (merge_node, e, new)
                (record {
                  holds = rw nodes-add_node (get_elem?-append st.nodes _ i x p.holds);
                  noted = rw (seen-add_node, ne) p.noted;
                })
          | inr (j, old) ↦
              let apart : j ≢ i = λ q.
                (let k = key_of_index m nodes keys other key i h (rw (← q) old) at in
                  ground (arith, ne, k, eq_iff other key)) in
              elim (Option-cases (get_elem? st.nodes j)) [
                | inl lost ↦
                    rw (merge_node, e, old, lost)
                      (record { holds = p.holds; noted = rw ne p.noted })
                | inr (existing, there) ↦
                    rw (merge_node, e, old, there)
                      (record {
                        holds =
                            rw (nodes-update_node, get_elem?-set_ne st.nodes j i _ apart) p.holds;
                        noted = rw (seen-update_node, ne) p.noted;
                      })
              ]
        ]
      ]

  same_node :
      (x node : Node) (st : Merging)
      → str_eq (node_match_key m node) key ≡ true
      → is_empty key ≡ false
      → Place false x st
      → Place true (replacement x node) (merge_node m keys node st)
  unfolding merge_node contains
  same_node x node st eq named p =
      let k = (eq_iff _ _).0 eq in
      rw (merge_node, k, named, p.noted, at, p.holds)
        (record {
          holds = rw nodes-update_node (get_elem?-set_self st.nodes i x _ p.holds);
          noted = rw seen-update_node (ground (arith, eq_iff key key));
        })

  seen_node :
      (x node : Node) (st : Merging)
      → str_eq (node_match_key m node) key ≡ true
      → Place true x st
      → Place true x (merge_node m keys node st)
  unfolding merge_node
  seen_node x node st eq p =
      let k = (eq_iff _ _).0 eq in
      let skipped : (is_empty key || contains st.seen key) ≡ true = ground (arith, p.noted) in
      rw (merge_node, k, skipped) p

  kept-Place :
      (incoming : List Node) (x : Node) (st : Merging)
      → Place true x st
      → Place true x (merge_all m keys incoming st)
  unfolding merge_all
  kept-Place [] x st p = p
  kept-Place (node ∷ incoming) x st p = elim (Bool-cases (str_eq (node_match_key m node) key)) [
    | inl e ↦ kept-Place incoming x _ (seen_node x node st e p)
    | inr e ↦ kept-Place incoming x _ (other_node true x node st e p)
  ]

  Place-merge_all :
      (incoming : List Node) (x : Node) (st : Merging)
      → is_empty key ≡ false
      → Place false x st
      → get_elem? (merge_all m keys incoming st).nodes i
        ≡ some (elim (first_of m key incoming) [ none ↦ x | some node ↦ replacement x node ])
  unfolding merge_all first_of
  Place-merge_all [] x st named p = p.holds
  Place-merge_all (node ∷ incoming) x st named p =
      elim (Bool-cases (str_eq (node_match_key m node) key)) [
        | inl e ↦
            rw e (kept-Place incoming (replacement x node) _ (same_node x node st e named p)).holds
        | inr e ↦ rw e (Place-merge_all incoming x _ named (other_node false x node st e p))
      ]

-- The place that the map of the merge gives for a key.
pub place-merge_all :
    (m : CaseMap) (current : Document) (incoming : List Node) (key : String) (i : ℕ)
    (existing : Node)
    → is_empty key ≡ false
    → lookup key (by_key m current.nodes 0 []) ≡ some i
    → get_elem? current.nodes i ≡ some existing
    → get_elem? (merge_nodes m current incoming).0.nodes i
      ≡ some (elim (first_of m key incoming) [
        | none ↦ existing
        | some node ↦ replacement existing node
      ])
unfolding merge_nodes contains
place-merge_all m current incoming key i existing named at e =
    Place-merge_all m current.nodes _ (by_key_lem m current.nodes) key i at incoming existing
      (merge_start current) named (record { holds = e; noted = refl })
