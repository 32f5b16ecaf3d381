-- ===== src/Profile/Active.antt =====
-- The active node after a merge or an edit (`MergeNodes` of profile.go, operations.go).
use rknno_vpn.Prelude.{
  ℕ, zero, suc, ◌≡◌, ◌≢◌, ◌≤◌, refl, sym, ◌∙◌, ◌⊎◌, inl, inr, String, Bool, true, false, not, ◌&&◌,
  ◌||◌, List, [], ◌∷◌, some, arith, length, length-append, contains, eq_iff, is_empty, CaseMap,
  StringMap, lookup, if◌then◌else◌, Bool-cases,
}
use rknno_vpn.Prelude.{
  get_elem?, get_elem?-set_self, get_elem?-set_ne, get_elem?-append, get_elem?-length, length-set,
  lt_of_get_elem?,
}
use rknno_vpn.Profile.Types.{Node, Document}
use rknno_vpn.Profile.Keys.{node_match_key, node_by_id, first_live_id}
use rknno_vpn.Profile.Ids.{unique_imported_node_id}
use rknno_vpn.Profile.Merge.{
  Merging, by_key, replacement, is_live, active_after, update_node, add_node, merge_start,
  merge_nodes,
}
use rknno_vpn.Profile.Operations.{has_live}
use rknno_vpn.Profile.Merging.{Keyed, by_key_lem, marked, merge_all_rule}
use rknno_vpn.Profile.Places.{nodes-update_node, seen-update_node, seen-add_node, key_of_index}
use rknno_vpn.Profile.Identity.{nodes-add_node}

abbrev pub all_stale : List Node → Bool
all_stale [] = true
all_stale (node ∷ nodes) = node.stale && all_stale nodes

-- A node of this id that is not stale; or no id, where all nodes are stale.
abbrev pub Settled : List Node → String → Type 0
Settled nodes active = (has_live nodes active ≡ true) ⊎ ((active ≡ "") × (all_stale nodes ≡ true))

pub first_live_id-Settled : (nodes : List Node) → Settled nodes (first_live_id nodes)
unfolding first_live_id has_live
first_live_id-Settled [] = inr (refl, refl)
first_live_id-Settled (node ∷ nodes) = elim (Bool-cases node.stale) [
  | inr e ↦ inl (ground (arith, e, eq_iff node.id node.id))
  | inl e ↦ elim (first_live_id-Settled nodes) [
    | inl h ↦ inl (ground (arith, e, h))
    | inr h ↦ inr (ground (arith, e, h.0), ground (arith, e, h.1))
  ]
]

pub has_live-is_live :
    (nodes : List Node) (id : String) → is_live nodes id ≡ true → has_live nodes id ≡ true
unfolding node_by_id has_live
has_live-is_live [] id h = ground (arith, h)
has_live-is_live (node ∷ nodes) id h = ground (arith, h, has_live-is_live nodes id)

has_live-get_elem? :
    (nodes : List Node) (i : ℕ) (node : Node)
    → get_elem? nodes i ≡ some node
    → node.stale ≡ false
    → has_live nodes node.id ≡ true
unfolding has_live
has_live-get_elem? [] i node e h = absurd (cc e)
has_live-get_elem? (x ∷ nodes) zero node e h = ground (arith, e, h, eq_iff x.id node.id)
has_live-get_elem? (x ∷ nodes) (suc i) node e h =
    ground (arith, has_live-get_elem? nodes i node e h)

-- The place of the imported node that becomes the active one: no key that is still to come leads there.
record Chosen (keys : StringMap ℕ) (st : Merging) : Type 0 where
  pub place : ℕ
  pub node : Node
  pub there : get_elem? st.nodes place ≡ some node
  pub named : node.id ≡ st.imported_active
  pub live : node.stale ≡ false
  pub settled : (key : String) → lookup key keys ≡ some place → contains st.seen key ≡ true

record Choosing (n : ℕ) (keys : StringMap ℕ) (st : Merging) : Type 0 where
  pub grown : n ≤ length st.nodes
  pub choice : (is_empty st.imported_active ≡ true) ⊎ Chosen keys st

active-update_node :
    (i : ℕ) (existing node : Node) (st : Merging)
    → (update_node i existing node st).imported_active
      ≡ (if is_empty st.imported_active && not node.stale then existing.id else st.imported_active)
unfolding update_node replacement
active-update_node i existing node st = ground arith

active-add_node :
    (node : Node) (st : Merging)
    → (add_node node st).imported_active ≡ (
        if is_empty st.imported_active && not node.stale
        then unique_imported_node_id node st.used
        else st.imported_active)
unfolding add_node
active-add_node node st = ground arith

module _ (m : CaseMap) (nodes : List Node) (keys : StringMap ℕ) (h : Keyed m nodes keys) where
  -- A round at another place than that of the chosen node.
  Chosen-kept :
      (key : String) (st after : Merging)
      → (c : Chosen keys st) → get_elem? after.nodes c.place ≡ get_elem? st.nodes c.place
      → after.seen ≡ key ∷ st.seen
      → after.imported_active ≡ st.imported_active
      → Chosen keys after
  unfolding contains
  Chosen-kept key st after c e f g = record {
    place = c.place;
    node = c.node;
    there = e ∙ c.there;
    named = c.named ∙ sym g;
    live = c.live;
    settled = λ other k. rw f (ground (arith, c.settled other k));
  }

  update_node-Choosing :
      (st : Merging) (node : Node) (i : ℕ) (existing : Node)
      → Choosing (length nodes) keys st
      → contains st.seen (node_match_key m node) ≡ false
      → lookup (node_match_key m node) keys ≡ some i
      → get_elem? st.nodes i ≡ some existing
      → Choosing
          (length nodes)
          keys
          (update_node i existing node (marked (node_match_key m node) st))
  unfolding contains replacement
  update_node-Choosing st node i existing p new e at =
      let key = node_match_key m node in
      let start = marked key st in
      let after = update_node i existing node start in
      let next = replacement existing node in
      let a = active-update_node i existing node start in
      let seen = seen-update_node i existing node start in
      record {
        grown = rw (nodes-update_node, length-set st.nodes i next) p.grown;
        choice = elim (Bool-cases (is_empty st.imported_active)) [
          | inl empty ↦ elim (Bool-cases node.stale) [
            | inl stale ↦ inl (rw (a, empty, stale) empty)
            | inr live ↦ inr (record {
              place = i;
              node = next;
              there = rw nodes-update_node (get_elem?-set_self st.nodes i existing next at);
              named = rw (a, empty, live) refl;
              live = live;
              settled = λ other k.
                  rw (seen, key_of_index m nodes keys key other i h e k)
                    (ground (arith, eq_iff other other));
            })
          ]
          | inr named ↦ elim p.choice [
            | inl empty ↦ absurd (cc (empty, named))
            | inr c ↦
                let apart : i ≢ c.place =
                  λ q. (let s = c.settled key (rw (← q) e) in cc (s, new)) in
                inr (
                  Chosen-kept key st after c
                    (rw nodes-update_node (get_elem?-set_ne st.nodes i c.place next apart)) seen
                    (rw (a, named) refl))
          ]
        ];
      }

  add_node-Choosing :
      (st : Merging) (node : Node)
      → Choosing (length nodes) keys st
      → Choosing (length nodes) keys (add_node node (marked (node_match_key m node) st))
  add_node-Choosing st node p =
      let key = node_match_key m node in
      let start = marked key st in
      let after = add_node node start in
      let next = record node { id = unique_imported_node_id node st.used } in
      let a = active-add_node node start in
      record {
        grown = rw nodes-add_node (omega (arith, length-append st.nodes (next ∷ []), p.grown));
        choice = elim (Bool-cases (is_empty st.imported_active)) [
          | inl empty ↦ elim (Bool-cases node.stale) [
            | inl stale ↦ inl (rw (a, empty, stale) empty)
            | inr live ↦ inr (record {
              place = length st.nodes;
              node = next;
              there = rw nodes-add_node (get_elem?-length st.nodes next);
              named = rw (a, empty, live) refl;
              live = live;
              settled = λ other k.
                  (let there = h other (length st.nodes) k in
                    absurd (
                      omega
                        (arith, p.grown, lt_of_get_elem? nodes (length st.nodes) there.0 there.1)));
            })
          ]
          | inr named ↦ elim p.choice [
            | inl empty ↦ absurd (cc (empty, named))
            | inr c ↦ inr (
                Chosen-kept key st after c
                  (rw nodes-add_node (get_elem?-append st.nodes (next ∷ []) c.place c.node c.there)
                    ∙ sym c.there)
                  (seen-add_node node start) (rw (a, named) refl))
          ]
        ];
      }

  lost-Choosing :
      (st : Merging) (key : String)
      → Choosing (length nodes) keys st
      → Choosing (length nodes) keys (marked key st)
  lost-Choosing st key p = record {
    grown = p.grown;
    choice = elim p.choice [
      | inl empty ↦ inl empty
      | inr c ↦ inr (Chosen-kept key st (marked key st) c refl refl refl)
    ];
  }

active_after-Settled :
    (n : ℕ) (keys : StringMap ℕ) (active : String) (st : Merging)
    → Choosing n keys st
    → Settled st.nodes (active_after st.imported_active active st.nodes)
unfolding active_after
active_after-Settled n keys active st p = elim (Bool-cases (is_empty st.imported_active)) [
  | inr named ↦ elim p.choice [
    | inl empty ↦ absurd (cc (empty, named))
    | inr c ↦
        rw named (inl (rw (← c.named) (has_live-get_elem? st.nodes c.place c.node c.there c.live)))
  ]
  | inl empty ↦ elim (Bool-cases (is_empty active || not (is_live st.nodes active))) [
    | inl lost ↦ rw (empty, lost) (first_live_id-Settled st.nodes)
    | inr live ↦ rw (empty, live) (inl (has_live-is_live st.nodes active (ground (arith, live))))
  ]
]

-- After a merge the active node is one of the profile that is not stale; only where all nodes are
-- stale there is none.
pub merge_nodes-Settled :
    (m : CaseMap) (current : Document) (incoming : List Node)
    → let next = (merge_nodes m current incoming).0 in Settled next.nodes next.active_node_id
unfolding merge_nodes
merge_nodes-Settled m current incoming =
    let keys = by_key m current.nodes 0 [] in
    let h = by_key_lem m current.nodes in
    active_after-Settled (length current.nodes) keys current.active_node_id _ (
      merge_all_rule m keys (Choosing (length current.nodes) keys)
        (λ st node i existing p new e at.
          update_node-Choosing m current.nodes keys h st node i existing p new e at)
        (λ st node i p e at. lost-Choosing m current.nodes keys h st _ p)
        (λ st node p new e. add_node-Choosing m current.nodes keys h st node p) incoming
        (merge_start current) (record { grown = omega arith; choice = inl refl }))
