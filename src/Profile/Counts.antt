-- ===== src/Profile/Counts.antt =====
-- How a merge counts (`MergeNodes` of profile.go).
use rknno_vpn.Prelude.{
  ℕ, ◌+◌, ◌≡◌, refl, ap, ◌∙◌, inl, inr, String, ◌||◌, List, [], ◌∷◌, arith, length, length-append,
  contains, is_empty, CaseMap, StringMap, lookup, if◌then◌else◌, Bool-cases, Option-cases,
}
use rknno_vpn.Prelude.{get_elem?, length-set, lt_of_get_elem?, le_of_get_elem?}
use rknno_vpn.Profile.Types.{Node, Document}
use rknno_vpn.Profile.Keys.{node_match_key}
use rknno_vpn.Profile.Merge.{
  Merging, by_key, replacement, update_node, add_node, merge_node, merge_all, merge_start,
  merge_nodes,
}
use rknno_vpn.Profile.Merging.{by_key_lem, marked, merge_all_rule}
use rknno_vpn.Profile.Places.{seen-update_node, seen-add_node}

-- The keys of the imported nodes that have one, each once, in the order of their first nodes.
unfoldable pub import_keys : CaseMap → List String → List Node → List String
import_keys m seen [] = []
import_keys m seen (node ∷ nodes) =
    let key = node_match_key m node in
    let rest = import_keys m (key ∷ seen) nodes in
    let skipped = import_keys m seen nodes in
    if is_empty key || contains seen key then skipped else key ∷ rest

seen-merge_node :
    (m : CaseMap) (keys : StringMap ℕ) (node : Node) (st : Merging)
    → (merge_node m keys node st).seen ≡ (
        if is_empty (node_match_key m node) || contains st.seen (node_match_key m node)
        then st.seen
        else node_match_key m node ∷ st.seen)
unfolding merge_node
seen-merge_node m keys node st =
    let key = node_match_key m node in
    elim (Bool-cases (is_empty key || contains st.seen key)) [
      | inl e ↦ rw (merge_node, e) refl
      | inr e ↦ elim (Option-cases (lookup key keys)) [
        | inl new ↦ rw (merge_node, e, new) (seen-add_node node (marked key st))
        | inr (i, old) ↦ elim (Option-cases (get_elem? st.nodes i)) [
          | inl lost ↦ rw (merge_node, e, old, lost) refl
          | inr (existing, at) ↦
              rw (merge_node, e, old, at) (seen-update_node i existing node (marked key st))
        ]
      ]
    ]

seen-merge_all :
    (m : CaseMap) (keys : StringMap ℕ) (incoming : List Node) (st : Merging)
    → length (merge_all m keys incoming st).seen
      ≡ length st.seen + length (import_keys m st.seen incoming)
unfolding merge_all import_keys
seen-merge_all m keys [] st = omega arith
seen-merge_all m keys (node ∷ incoming) st =
    let key = node_match_key m node in
    let after = merge_node m keys node st in
    let ih = seen-merge_all m keys incoming after in
    let rest : List String → ℕ = λ seen. length seen + length (import_keys m seen incoming) in
    elim (Bool-cases (is_empty key || contains st.seen key)) [
      | inl e ↦
          let step : after.seen ≡ st.seen = rw e at (seen-merge_node m keys node st) in
          rw e (ih ∙ ap rest step)
      | inr e ↦
          let step : after.seen ≡ key ∷ st.seen = rw e at (seen-merge_node m keys node st) in
          rw e (omega (arith, ih, ap rest step))
    ]

-- The counts of the rounds so far, for a profile of `n` nodes.
record Counted (n : ℕ) (st : Merging) : Type 0 where
  pub nodes : length st.nodes ≡ n + st.stats.added
  pub rounds : st.stats.added + st.stats.updated + st.stats.unchanged ≡ length st.seen
  pub no_stale : st.stats.stale ≡ 0

update_node-Counted :
    (n : ℕ) (st : Merging) (node : Node) (i : ℕ) (existing : Node) (key : String)
    → Counted n st
    → Counted n (update_node i existing node (marked key st))
unfolding update_node
update_node-Counted n st node i existing key p =
    let l = length-set st.nodes i (replacement existing node) in
    ground (arith, l, p.nodes, p.rounds, p.no_stale)

add_node-Counted :
    (n : ℕ) (st : Merging) (node : Node) (key : String)
    → Counted n st
    → Counted n (add_node node (marked key st))
unfolding add_node
add_node-Counted n st node key p = grind (arith, length-append, p.nodes, p.rounds, p.no_stale)

-- A merge makes the profile longer by the number of nodes that it calls added. The nodes added, updated
-- and unchanged are together as many as the different keys of the imported nodes; none is called stale.
pub stats-merge_nodes :
    (m : CaseMap) (current : Document) (incoming : List Node)
    → let (next, stats) = merge_nodes m current incoming in
      (length next.nodes ≡ length current.nodes + stats.added)
      × (stats.added + stats.updated + stats.unchanged ≡ length (import_keys m [] incoming))
      × (stats.stale ≡ 0)
unfolding merge_nodes
stats-merge_nodes m current incoming =
    let n = length current.nodes in
    let keys = by_key m current.nodes 0 [] in
    let p =
      merge_all_rule m keys (Counted n)
        (λ st node i existing p new e at. update_node-Counted n st node i existing _ p)
        (λ st node i p e lost.
          let there = by_key_lem m current.nodes _ i e in
          absurd (
            omega (
              arith,
              p.nodes,
              le_of_get_elem? st.nodes i lost,
              lt_of_get_elem? current.nodes i there.0 there.1,
            )))
        (λ st node p new e. add_node-Counted n st node _ p) incoming (merge_start current)
        (record { nodes = omega arith; rounds = refl; no_stale = refl }) in
    let seen = seen-merge_all m keys incoming (merge_start current) in
    (p.nodes, omega (arith, p.rounds, seen), p.no_stale)
