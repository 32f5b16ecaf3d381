-- ===== src/Profile/Edits.antt =====
-- The edits of a profile, one by one and after one another (operations.go).
use rknno_vpn.Prelude.{
  ◌≡◌, ◌≢◌, refl, ◌⊎◌, inl, inr, String, true, false, not, ◌&&◌, List, [], ◌∷◌, ◌++◌, some, arith,
  str_eq, eq_iff, is_empty, if◌then◌else◌, Bool-cases, distinct, distinct-append, contains,
}
use rknno_vpn.Profile.Types.{Node, Document}
use rknno_vpn.Profile.Keys.{node_by_id, first_live_id}
use rknno_vpn.Profile.Operations.{
  edited, put_node, upsert_node, without_node, has_node, remove_node,
}
use rknno_vpn.Profile.Identity.{ids}
use rknno_vpn.Profile.Active.{Settled, first_live_id-Settled}

has_node-without_node :
    (nodes : List Node) (id : String) → has_node (without_node nodes id) id ≡ false
unfolding has_node without_node
has_node-without_node [] id = refl
has_node-without_node (node ∷ nodes) id = ground (arith, has_node-without_node nodes id)

node_by_id-without_node :
    (nodes : List Node) (id other : String)
    → str_eq id other ≡ false
    → node_by_id (without_node nodes id) other ≡ node_by_id nodes other
unfolding node_by_id without_node
node_by_id-without_node [] id other h = refl
node_by_id-without_node (node ∷ nodes) id other h = ground (
  arith,
  h,
  eq_iff node.id id,
  eq_iff node.id other,
  eq_iff id other,
  node_by_id-without_node nodes id other h,
)

node_by_id-put_node :
    (nodes : List Node) (node : Node) → node_by_id (put_node nodes node) node.id ≡ some node
unfolding node_by_id put_node
node_by_id-put_node [] node = ground (arith, eq_iff node.id node.id)
node_by_id-put_node (old ∷ nodes) node =
    ground (arith, eq_iff node.id node.id, node_by_id-put_node nodes node)

node_by_id-put_node_ne :
    (nodes : List Node) (node : Node) (other : String)
    → str_eq node.id other ≡ false
    → node_by_id (put_node nodes node) other ≡ node_by_id nodes other
unfolding node_by_id put_node
node_by_id-put_node_ne [] node other h = ground (arith, h)
node_by_id-put_node_ne (old ∷ nodes) node other h = ground (
  arith,
  h,
  eq_iff old.id node.id,
  eq_iff old.id other,
  eq_iff node.id other,
  node_by_id-put_node_ne nodes node other h,
)

ids-put_node :
    (nodes : List Node) (node : Node)
    → ids (put_node nodes node)
      ≡ (if has_node nodes node.id then ids nodes else ids nodes ++ node.id ∷ [])
unfolding put_node has_node
ids-put_node [] node = refl
ids-put_node (old ∷ nodes) node = ground (arith, eq_iff old.id node.id, ids-put_node nodes node)

contains-ids : (nodes : List Node) (id : String) → contains (ids nodes) id ≡ has_node nodes id
unfolding contains has_node
contains-ids [] id = refl
contains-ids (node ∷ nodes) id = rw (contains-ids nodes id) refl

distinct-put_node :
    (nodes : List Node) (node : Node)
    → distinct (ids nodes) ≡ true
    → distinct (ids (put_node nodes node)) ≡ true
distinct-put_node nodes node h = elim (Bool-cases (has_node nodes node.id)) [
  | inl e ↦ rw (ids-put_node, e) h
  | inr e ↦ rw (ids-put_node, e, distinct-append, h, contains-ids, e) refl
]

without_node-put_node :
    (nodes : List Node) (node : Node)
    → has_node nodes node.id ≡ false
    → without_node (put_node nodes node) node.id ≡ nodes
unfolding without_node has_node put_node
without_node-put_node [] node h = ground (arith, eq_iff node.id node.id)
without_node-put_node (old ∷ nodes) node h = ground (arith, h, without_node-put_node nodes node)

has_node-put_node :
    (nodes : List Node) (node : Node) → has_node (put_node nodes node) node.id ≡ true
unfolding has_node put_node
has_node-put_node [] node = ground (arith, eq_iff node.id node.id)
has_node-put_node (old ∷ nodes) node =
    ground (arith, eq_iff node.id node.id, has_node-put_node nodes node)

-- The documents that the two edits make.
abbrev removed : Document → String → Document
removed current id = record current {
  nodes = without_node current.nodes id;
  active_node_id =
      if str_eq current.active_node_id id
      then first_live_id (without_node current.nodes id)
      else current.active_node_id;
}

abbrev upserted : Document → Node → Document
upserted current node = record current {
  nodes = put_node current.nodes node;
  active_node_id =
      if is_empty current.active_node_id && not node.stale then node.id else current.active_node_id;
}

edited_inj : (x y : Document) → edited x ≡ edited y → y ≡ x
edited_inj x y e = cc e

remove_node_inv :
    (current next : Document) (id : String)
    → remove_node current id ≡ edited next
    → next ≡ removed current id
unfolding remove_node
remove_node_inv current next id e = elim (Bool-cases (is_empty id)) [
  | inl a ↦ absurd (let f = rw a at e in cc f)
  | inr a ↦ elim (Bool-cases (has_node current.nodes id)) [
    | inr b ↦ absurd (let f = rw (a, b) at e in cc f)
    | inl b ↦ edited_inj _ _ (let f = rw (a, b) at e in f)
  ]
]

upsert_node_inv :
    (current next : Document) (node : Node)
    → upsert_node current node ≡ edited next
    → (is_empty node.id ≡ false) × (next ≡ upserted current node)
unfolding upsert_node
upsert_node_inv current next node e = elim (Bool-cases (is_empty node.id)) [
  | inl a ↦ absurd (let f = rw a at e in cc f)
  | inr a ↦ (a, edited_inj _ _ (let f = rw a at e in f))
]

removed_active :
    (current : Document) (id : String)
    → let next = removed current id in
      ((current.active_node_id ≡ id) × Settled next.nodes next.active_node_id)
      ⊎ ((current.active_node_id ≢ id) × (next.active_node_id ≡ current.active_node_id))
removed_active current id =
    let same = eq_iff current.active_node_id id in
    elim (Bool-cases (str_eq current.active_node_id id)) [
      | inl e ↦ inl (same.0 e, rw e (first_live_id-Settled (without_node current.nodes id)))
      | inr e ↦ inr (λ q. (let f = same.1 q in cc (e, f)), rw e refl)
    ]

-- A removal that succeeds leaves no node of the id, and a search for another id finds what it found
-- before. The active node is repaired if it was the one removed, and is the same else.
pub remove_node_lem :
    (current next : Document) (id other : String)
    → remove_node current id ≡ edited next
    → (has_node next.nodes id ≡ false)
      × ((id ≡ other) ⊎ (node_by_id next.nodes other ≡ node_by_id current.nodes other))
      × (((current.active_node_id ≡ id) × Settled next.nodes next.active_node_id)
          ⊎ ((current.active_node_id ≢ id) × (next.active_node_id ≡ current.active_node_id)))
remove_node_lem current next id other e = rw (remove_node_inv current next id e) (
  has_node-without_node current.nodes id,
  elim (Bool-cases (str_eq id other)) [
    | inl same ↦ inl ((eq_iff id other).0 same)
    | inr apart ↦ inr (node_by_id-without_node current.nodes id other apart)
  ],
  removed_active current id,
)

-- A node that was not there is put, and then removed: the removal succeeds and the nodes are as before.
pub remove_node-upsert_node :
    (current next : Document) (node : Node)
    → has_node current.nodes node.id ≡ false
    → upsert_node current node ≡ edited next
    → (last : Document) × (remove_node next node.id ≡ edited last) × (last.nodes ≡ current.nodes)
unfolding remove_node
remove_node-upsert_node current next node h e =
    let (named, q) = upsert_node_inv current next node e in
    rw q (
      removed (upserted current node) node.id,
      rw (named, has_node-put_node current.nodes node) refl,
      without_node-put_node current.nodes node h,
    )

-- A node that is put is found by its id, a search for another id finds what it found before, and
-- distinct ids stay distinct.
pub upsert_node_lem :
    (current next : Document) (node : Node) (other : String)
    → distinct (ids current.nodes) ≡ true
    → upsert_node current node ≡ edited next
    → (node_by_id next.nodes node.id ≡ some node)
      × ((node.id ≡ other) ⊎ (node_by_id next.nodes other ≡ node_by_id current.nodes other))
      × (distinct (ids next.nodes) ≡ true)
upsert_node_lem current next node other d e = rw (upsert_node_inv current next node e).1 (
  node_by_id-put_node current.nodes node,
  elim (Bool-cases (str_eq node.id other)) [
    | inl same ↦ inl ((eq_iff node.id other).0 same)
    | inr apart ↦ inr (node_by_id-put_node_ne current.nodes node other apart)
  ],
  distinct-put_node current.nodes node d,
)
