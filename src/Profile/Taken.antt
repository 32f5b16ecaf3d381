-- ===== src/Profile/Taken.antt =====
-- Where a merge puts an imported node, and what it takes over (`MergeNodes` of profile.go).
use rknno_vpn.Prelude.{
  ℕ, suc, ◌+◌, ◌≡◌, refl, ap, ◌∙◌, inl, inr, String, false, true, List, [], ◌∷◌, Option, none, some,
  arith, str_eq, eq_iff, is_empty, trim_space, CaseMap, StringMap, lookup, put, lookup-put_self,
  lookup-put_ne, if◌then◌else◌, Bool-cases, Option-cases,
}
use rknno_vpn.Prelude.{get_elem?}
use rknno_vpn.Profile.Types.{Node, Document}
use rknno_vpn.Profile.Keys.{node_match_key, first_non_empty_trimmed}
use rknno_vpn.Profile.Merge.{by_key, replacement, merge_nodes}
use rknno_vpn.Profile.Places.{first_of, place-merge_all}

-- The index of the last node of a key.
unfoldable pub last_index : CaseMap → String → List Node → Option ℕ
last_index m key [] = none
last_index m key (node ∷ nodes) = elim (last_index m key nodes) [
  | some i ↦ some (suc i)
  | none ↦ if str_eq (node_match_key m node) key then some 0 else none
]

abbrev place_from : ℕ → Option ℕ → Option ℕ → Option ℕ
place_from i none found = found
place_from i (some j) found = some (i + j)

lookup-by_key :
    (m : CaseMap) (key : String) (nodes : List Node) (i : ℕ) (keys : StringMap ℕ)
    → is_empty key ≡ false
    → lookup key (by_key m nodes i keys) ≡ place_from i (last_index m key nodes) (lookup key keys)
unfolding by_key last_index
lookup-by_key m key [] i keys named = refl
lookup-by_key m key (node ∷ nodes) i keys named =
    let k = node_match_key m node in
    let ih = lookup-by_key m key nodes (suc i) (if is_empty k then keys else put keys k i) named in
    elim (Option-cases (last_index m key nodes)) [
      | inr (j, e) ↦
          rw (by_key, last_index, e)
            ((rw e at ih)
              ∙ ap (λ (n : ℕ). some n) (let q : suc i + j ≡ i + suc j = omega arith in q))
      | inl e ↦ elim (Bool-cases (str_eq k key)) [
        | inl same ↦
            let s = (eq_iff k key).0 same in
            let has : is_empty k ≡ false = rw s named in
            let first : lookup key (put keys k i) ≡ some i = rw s (lookup-put_self keys key i) in
            rw (by_key, last_index, e, same, has)
              ((rw (e, has) at ih)
                ∙ first
                ∙ ap (λ (n : ℕ). some n) (let q : i ≡ i + 0 = omega arith in q))
        | inr other ↦ elim (Bool-cases (is_empty k)) [
          | inl no_key ↦ rw (by_key, last_index, e, other, no_key) (rw (e, no_key) at ih)
          | inr has_key ↦
              rw (by_key, last_index, e, other, has_key)
                ((rw (e, has_key) at ih) ∙ lookup-put_ne keys k key i other)
        ]
      ]
    ]

-- The first text without its outer space, or the second where that is blank.
abbrev pub or_trimmed : String → String → String
or_trimmed a b = if is_empty (trim_space a) then trim_space b else trim_space a

-- An imported node with the id and the time of one that it is taken for, and with its name and its
-- group where these are not blank.
abbrev pub taken_over : Node → Node → Node
taken_over existing node = record node {
  id = existing.id;
  name = or_trimmed existing.name node.name;
  group = or_trimmed existing.group node.group;
  created_at = existing.created_at;
}

blank_text : (s : String) → is_empty s ≡ true → "" ≡ s
blank_text String.[] h = refl
blank_text (String.◌∷◌ c s) h = absurd (cc h)

first-or_trimmed : (a b : String) → first_non_empty_trimmed (a ∷ b ∷ []) ≡ or_trimmed a b
unfolding first_non_empty_trimmed
first-or_trimmed a b = elim (Bool-cases (is_empty (trim_space a))) [
  | inr e ↦ rw (first_non_empty_trimmed, e) refl
  | inl e ↦ elim (Bool-cases (is_empty (trim_space b))) [
    | inr f ↦ rw (first_non_empty_trimmed, e, first_non_empty_trimmed, f) refl
    | inl f ↦ rw (first_non_empty_trimmed, e, first_non_empty_trimmed, f) (blank_text _ f)
  ]
]

replacement-taken_over :
    (existing node : Node) → replacement existing node ≡ taken_over existing node
unfolding replacement
replacement-taken_over existing node =
    ap
      (λ (x : String × String). record node {
        id = existing.id;
        name = x.0;
        group = x.1;
        created_at = existing.created_at;
      })
      (let e = first-or_trimmed existing.name node.name in
        let f = first-or_trimmed existing.group node.group in
        let g : ◌≡◌ {A = String × String}
            (
              first_non_empty_trimmed (existing.name ∷ node.name ∷ []),
              first_non_empty_trimmed (existing.group ∷ node.group ∷ []),
            )
            (or_trimmed existing.name node.name, or_trimmed existing.group node.group) =
          cc (e, f) in
        g)

abbrev chosen_with : (Node → Node → Node) → Node → Option Node → Node
chosen_with f existing none = existing
chosen_with f existing (some node) = f existing node

chosen_same :
    (existing : Node) (found : Option Node)
    → chosen_with replacement existing found ≡ chosen_with taken_over existing found
chosen_same existing none = refl
chosen_same existing (some node) = replacement-taken_over existing node

-- The place of the last node of a key takes the first imported node of that key, with the id and the
-- time of the node there, and with its name and its group where these are not blank; without such an
-- imported node it stays as it was.
pub place-merge_nodes :
    (m : CaseMap) (current : Document) (incoming : List Node) (key : String) (i : ℕ)
    (existing : Node)
    → is_empty key ≡ false
    → last_index m key current.nodes ≡ some i
    → get_elem? current.nodes i ≡ some existing
    → get_elem? (merge_nodes m current incoming).0.nodes i
      ≡ some (elim (first_of m key incoming) [
        | none ↦ existing
        | some node ↦ taken_over existing node
      ])
unfolding lookup
place-merge_nodes m current incoming key i existing named at e =
    let found : lookup key (by_key m current.nodes 0 []) ≡ some i =
      lookup-by_key m key current.nodes 0 [] named
      ∙ rw at (ap (λ (n : ℕ). some n) (let q : 0 + i ≡ i = omega arith in q)) in
    place-merge_all m current incoming key i existing named found e
    ∙ ap (λ (x : Node). some x) (chosen_same existing (first_of m key incoming))
