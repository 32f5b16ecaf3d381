-- ===== src/Profile/Identity.antt =====
-- The ids of the nodes across a merge (`MergeNodes` of profile.go).
use rknno_vpn.Prelude.{
  ℕ, zero, suc, ◌≡◌, refl, sym, ap, ◌∙◌, String, true, false, List, [], ◌∷◌, ◌++◌, some, arith,
  contains, contains-append, distinct, distinct-append, is_empty, trim_space, CaseMap, All,
}
use mathlib.Core.List.{append-nil, append_assoc}
use rknno_vpn.Prelude.{get_elem?, set}
use rknno_vpn.Profile.Types.{Node, Document}
use rknno_vpn.Profile.Keys.{node_match_key}
use rknno_vpn.Profile.Ids.{unique_imported_node_id}
use rknno_vpn.Profile.Merge.{
  Merging, by_key, used_ids, replacement, update_node, add_node, merge_start, merge_nodes,
}
use rknno_vpn.Profile.Merging.{marked, merge_all_rule}
use rknno_vpn.Profile.Unique.{contains-unique_imported_node_id}

abbrev pub ids : List Node → List String
ids [] = []
ids (node ∷ nodes) = node.id ∷ ids nodes

ids-append : (xs ys : List Node) → ids (xs ++ ys) ≡ ids xs ++ ids ys
ids-append [] ys = refl
ids-append (x ∷ xs) ys = rw (ids-append xs ys) refl

ids-set :
    (nodes : List Node) (i : ℕ) (old next : Node)
    → get_elem? nodes i ≡ some old
    → next.id ≡ old.id
    → ids (set nodes i next) ≡ ids nodes
ids-set [] i old next e h = refl
ids-set (x ∷ nodes) zero old next e h = ground (arith, e, h)
ids-set (x ∷ nodes) (suc i) old next e h = rw (ids-set nodes i old next e h) refl

pub ids-update_node :
    (i : ℕ) (existing node : Node) (st : Merging)
    → get_elem? st.nodes i ≡ some existing
    → ids (update_node i existing node st).nodes ≡ ids st.nodes
unfolding update_node
ids-update_node i existing node st e =
    let h = ids-set st.nodes i existing (replacement existing node) e refl in ground (arith, h)

pub nodes-add_node :
    (node : Node) (st : Merging)
    → (add_node node st).nodes
      ≡ st.nodes ++ (record node { id = unique_imported_node_id node st.used }) ∷ []
unfolding add_node
nodes-add_node node st = ground arith

ids-add_node :
    (node : Node) (st : Merging)
    → ids (add_node node st).nodes ≡ ids st.nodes ++ unique_imported_node_id node st.used ∷ []
ids-add_node node st = rw (nodes-add_node, ids-append) refl

-- A merge keeps the ids of all nodes, each in its place; the ids of new nodes come behind them.
pub ids-merge_nodes :
    (m : CaseMap) (current : Document) (incoming : List Node)
    → (fresh : List String) × (ids (merge_nodes m current incoming).0.nodes
        ≡ ids current.nodes ++ fresh)
unfolding merge_nodes
ids-merge_nodes m current incoming =
    merge_all_rule m (by_key m current.nodes 0 [])
      (λ st. (fresh : List String) × (ids st.nodes ≡ ids current.nodes ++ fresh))
      (λ st node i existing p new e at.
        (p.0, ids-update_node i existing node (marked (node_match_key m node) st) at ∙ p.1))
      (λ st node i p e at. p)
      (λ st node p new e. (
        p.0 ++ unique_imported_node_id node st.used ∷ [],
        ids-add_node node (marked (node_match_key m node) st)
            ∙ ap (λ (xs : List String). xs ++ unique_imported_node_id node st.used ∷ []) p.1
            ∙ append_assoc (ids current.nodes) p.0 _,
      ))
      incoming (merge_start current) ([], sym (append-nil _))

-- No id occurs twice, and all are in use.
record AllUsed (st : Merging) : Type 0 where
  pub apart : distinct (ids st.nodes) ≡ true
  pub used : (id : String) → contains (ids st.nodes) id ≡ true → contains st.used id ≡ true

used-update_node :
    (i : ℕ) (existing node : Node) (st : Merging) → (update_node i existing node st).used ≡ st.used
unfolding update_node
used-update_node i existing node st = ground arith

used-add_node :
    (node : Node) (st : Merging)
    → (add_node node st).used ≡ unique_imported_node_id node st.used ∷ st.used
unfolding add_node
used-add_node node st = ground arith

add_node-AllUsed : (node : Node) (st : Merging) → AllUsed st → AllUsed (add_node node st)
unfolding contains
add_node-AllUsed node st h =
    let id = unique_imported_node_id node st.used in
    let unused = contains-unique_imported_node_id node st.used in
    let absent : contains (ids st.nodes) id ≡ false = ground (arith, unused, h.used id) in
    record {
      apart = rw (ids-add_node, distinct-append, h.apart, absent) refl;
      used = λ x e.
          (let e' = rw (ids-add_node, contains-append) at e in
            rw used-add_node (ground (arith, e', h.used x)));
    }

-- An id that the profile's checks let through.
abbrev pub Named : Node → Type 0
Named node = (trim_space node.id ≡ node.id) × (is_empty node.id ≡ false)

used_ids_lem : (nodes : List Node) → All Named nodes → used_ids nodes ≡ ids nodes
unfolding used_ids
used_ids_lem [] h = refl
used_ids_lem (node ∷ nodes) h = rw (h.0.0, h.0.1, used_ids_lem nodes h.1) refl

-- Where the ids of a profile are distinct, not empty and free of outer blanks, a merge of any nodes
-- leaves them distinct.
pub distinct-merge_nodes :
    (m : CaseMap) (current : Document) (incoming : List Node)
    → All Named current.nodes
    → distinct (ids current.nodes) ≡ true
    → distinct (ids (merge_nodes m current incoming).0.nodes) ≡ true
unfolding merge_nodes
distinct-merge_nodes m current incoming named h =
    let start : AllUsed (merge_start current) = record {
      apart = h;
      used = λ id e. rw (used_ids_lem current.nodes named) e;
    } in
    (merge_all_rule m (by_key m current.nodes 0 []) AllUsed
      (λ st node i existing p new e at.
        let same = ids-update_node i existing node (marked (node_match_key m node) st) at in
        record {
          apart = rw same p.apart;
          used = λ x f. rw used-update_node (p.used x (rw same at f));
        })
      (λ st node i p e at. record { apart = p.apart; used = p.used })
      (λ st node p new e.
        add_node-AllUsed node (marked (node_match_key m node) st)
          (record { apart = p.apart; used = p.used }))
      incoming (merge_start current) start).apart
