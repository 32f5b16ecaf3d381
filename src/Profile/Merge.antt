-- ===== src/Profile/Merge.antt =====
-- The merge of imported nodes into a profile (`MergeNodes` of profile.go). The document is the result;
-- that the slice of the old document is written too is not modelled.
use rknno_vpn.Prelude.{
  ℕ, suc, ◌+◌, String, Bool, false, not, ◌&&◌, ◌||◌, List, [], ◌∷◌, ◌++◌, none, some, str_eq,
  is_empty, trim_space, contains, CaseMap, StringMap, lookup, put, if◌then◌else◌,
}
use rknno_vpn.Prelude.{get_elem?, set}
use rknno_vpn.Profile.Types.{Node, Document}
use rknno_vpn.Profile.Keys.{first_non_empty_trimmed, node_match_key, node_by_id, first_live_id}
use rknno_vpn.Profile.Ids.{unique_imported_node_id}

-- The map of the counts, which has these keys.
pub record MergeStats : Type 0 where
  pub added : ℕ
  pub updated : ℕ
  pub unchanged : ℕ
  pub stale : ℕ

abbrev pub no_stats : MergeStats
no_stats = record { added = 0; updated = 0; unchanged = 0; stale = 0 }

-- `usedIDs` of the present nodes.
unfoldable pub used_ids : List Node → List String
used_ids [] = []
used_ids (node ∷ nodes) =
    let rest = used_ids nodes in
    if is_empty (trim_space node.id) then rest else trim_space node.id ∷ rest

-- `byKey` of the nodes from index `i` on: a later node of the same key takes the place of an earlier.
unfoldable pub by_key : CaseMap → List Node → ℕ → StringMap ℕ → StringMap ℕ
by_key m [] i map = map
by_key m (node ∷ nodes) i map =
    let key = node_match_key m node in
    by_key m nodes (suc i) (if is_empty key then map else put map key i)

-- The variables of the loop over the imported nodes.
pub record Merging : Type 0 where
  pub nodes : List Node
  pub used : List String
  pub stats : MergeStats
  pub seen : List String
  pub imported_active : String

abbrev pub note_active : Node → Merging → Merging
note_active node st =
    if is_empty st.imported_active && not node.stale
    then record st { imported_active = node.id }
    else st

-- An imported node in the place of the node that it is taken for.
unfoldable pub replacement : Node → Node → Node
replacement existing node = record node {
  id = existing.id;
  name = first_non_empty_trimmed (existing.name ∷ node.name ∷ []);
  group = first_non_empty_trimmed (existing.group ∷ node.group ∷ []);
  created_at = existing.created_at;
}

unfoldable pub update_node : ℕ → Node → Node → Merging → Merging
unfolding replacement
update_node index existing node st =
    let stats = st.stats in
    let same = str_eq existing.outbound node.outbound in
    let next = replacement existing node in
    note_active next (record st {
      nodes = set st.nodes index next;
      stats =
          if same
          then record stats { unchanged = stats.unchanged + 1 }
          else record stats { updated = stats.updated + 1 };
    })

unfoldable pub add_node : Node → Merging → Merging
add_node node st =
    let stats = st.stats in
    let id = unique_imported_node_id node st.used in
    let next = record node { id = id } in
    note_active next (record st {
      nodes = st.nodes ++ next ∷ [];
      used = id ∷ st.used;
      stats = record stats { added = stats.added + 1 };
    })

-- One round of the loop. An index of `byKey` is in range, so that the case without a node does not
-- occur.
unfoldable pub merge_node : CaseMap → StringMap ℕ → Node → Merging → Merging
unfolding update_node add_node
merge_node m keys node st =
    let key = node_match_key m node in
    if is_empty key || contains st.seen key
    then st
    else (let marked = record st { seen = key ∷ st.seen } in
        elim (lookup key keys) [
          | none ↦ add_node node marked
          | some index ↦ elim (get_elem? st.nodes index) [
            | none ↦ marked
            | some existing ↦ update_node index existing node marked
          ]
        ])

unfoldable pub merge_all : CaseMap → StringMap ℕ → List Node → Merging → Merging
merge_all m keys [] st = st
merge_all m keys (node ∷ incoming) st = merge_all m keys incoming (merge_node m keys node st)

-- Whether `nodeByID` finds a node that is not stale.
abbrev pub is_live : List Node → String → Bool
is_live nodes id = elim (node_by_id nodes id) [ none ↦ false | some node ↦ not node.stale ]

-- The active node after the loop.
unfoldable pub active_after : String → String → List Node → String
active_after imported active nodes =
    if not (is_empty imported)
    then imported
    else if is_empty active || not (is_live nodes active)
    then first_live_id nodes
    else active

abbrev pub merge_start : Document → Merging
merge_start current = record {
  nodes = current.nodes;
  used = used_ids current.nodes;
  stats = no_stats;
  seen = [];
  imported_active = "";
}

unfoldable pub merge_nodes : CaseMap → Document → List Node → Document × MergeStats
unfolding used_ids by_key merge_all active_after
merge_nodes m current incoming =
    let st = merge_all m (by_key m current.nodes 0 []) incoming (merge_start current) in
    (
      record current {
        nodes = st.nodes;
        active_node_id = active_after st.imported_active current.active_node_id st.nodes;
      },
      st.stats,
    )
