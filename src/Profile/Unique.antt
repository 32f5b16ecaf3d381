-- ===== src/Profile/Unique.antt =====
-- The search for a free id ends with one (`uniqueImportedNodeID` of profile.go).
use Prim.Native.String.{String}
use rknno_vpn.Prelude.{
  ℕ, zero, suc, ◌<◌, ◌≤◌, ◌≡◌, ◌≢◌, refl, inl, inr, true, false, List, [], ◌∷◌, arith, length,
  contains, str_eq, eq_iff, ltb, trim_space, is_empty, if◌then◌else◌, Bool-cases,
}
use rknno_vpn.Prelude.Print.{decimal-inj}
use text.Mathlib.TextLemmas.{append_cancel_left, cons-append}
use rknno_vpn.Profile.Types.{Node}
use rknno_vpn.Profile.Ids.{candidate, first_free, node_id_collision_suffix, unique_imported_node_id}

-- The list with the first `x` taken out.
remove : String → List String → List String
remove x [] = []
remove x (y ∷ ys) = let rest = remove x ys in if str_eq y x then ys else y ∷ rest

length-remove :
    (x : String) (used : List String)
    → contains used x ≡ true
    → length used ≡ suc (length (remove x used))
unfolding remove contains
length-remove x [] h = ground (arith, h)
length-remove x (y ∷ ys) h = ground (arith, h, length-remove x ys)

contains-remove :
    (x y : String) (used : List String)
    → str_eq x y ≡ false
    → contains (remove x used) y ≡ contains used y
unfolding remove contains
contains-remove x y [] h = refl
contains-remove x y (z ∷ zs) h =
    ground (arith, h, contains-remove x y zs h, eq_iff z x, eq_iff z y, eq_iff x y)

str_eq_ne : (x y : String) → x ≢ y → str_eq x y ≡ false
str_eq_ne x y h = ground (arith, eq_iff x y, h)

module _ (name : ℕ → String) (apart : (i j : ℕ) → 0 < i → i < j → name i ≢ name j) where
  search_same :
      (fuel : ℕ) (used : List String) (i n : ℕ)
      → 0 < i
      → i < n
      → first_free fuel (remove (name i) used) name n ≡ first_free fuel used name n
  unfolding first_free
  search_same zero used i n h k = refl
  search_same (suc fuel) used i n h k =
      rw
        (
          contains-remove (name i) (name n) used (str_eq_ne _ _ (apart i n h k)),
          search_same fuel used i (suc n) h (omega arith),
        )
        refl

  found_at :
      (fuel : ℕ) (used : List String) (n : ℕ)
      → (k : ℕ) × (n ≤ k) × (first_free fuel used name n ≡ name k)
  unfolding first_free
  found_at zero used n = (n, omega arith, refl)
  found_at (suc fuel) used n = elim (Bool-cases (contains used (name n))) [
    | inl e ↦ (let r = found_at fuel used (suc n) in (r.0, omega (arith, r.1), rw e r.2))
    | inr e ↦ (n, omega arith, rw e refl)
  ]

  contains-first_free :
      (fuel : ℕ) (used : List String) (n : ℕ)
      → 0 < n
      → length used ≤ fuel
      → contains used (first_free fuel used name n) ≡ false
  unfolding first_free contains
  contains-first_free zero [] n h l = refl
  contains-first_free zero (x ∷ xs) n h l = absurd (omega arith)
  contains-first_free (suc fuel) used n h l = elim (Bool-cases (contains used (name n))) [
    | inr e ↦ rw (e, first_free) e
    | inl e ↦
        let fewer = length-remove (name n) used e in
        let ih =
          contains-first_free fuel (remove (name n) used) (suc n) (omega arith) (omega arith) in
        let r = found_at fuel used (suc n) in
        let other =
          contains-remove (name n) (name r.0) used
            (str_eq_ne _ _ (apart n r.0 h (omega (arith, r.1)))) in
        rw (e, r.2, ← other, ← r.2, ← search_same fuel used n (suc n) h (omega arith)) ih
  ]

high_number : (j : ℕ) → 2 ≤ j → ltb j 2 ≡ false
high_number j h = ground arith

candidate_apart :
    (base suffix : String) (i j : ℕ)
    → 0 < i
    → i < j
    → candidate base suffix i ≢ candidate base suffix j
unfolding candidate
candidate_apart base suffix i j h k e =
    let ends =
      append_cancel_left suffix _ _ (append_cancel_left "-" _ _ (append_cancel_left base _ _ e)) in
    elim (Bool-cases (ltb i 2)) [
      | inl low ↦
          (let ends' = rw (low, high_number j (omega arith), cons-append) at ends in cc ends')
      | inr high ↦
          (let high' = high_number j (ground (arith, high)) in
            let same = rw (high, high') at ends in
            let n = decimal-inj i j (append_cancel_left "-" _ _ same) in omega (arith, n))
    ]

-- An imported node gets an id that no node has: the search for one ends.
pub contains-unique_imported_node_id :
    (node : Node) (used : List String) → contains used (unique_imported_node_id node used) ≡ false
unfolding unique_imported_node_id
contains-unique_imported_node_id node used =
    let id = trim_space node.id in
    let base = if is_empty id then "node" else id in
    elim (Bool-cases (contains used base)) [
      | inl e ↦ rw e (
          contains-first_free _ (candidate_apart base (node_id_collision_suffix node)) (length used)
            used 1 (omega arith) (omega arith))
      | inr e ↦ rw e e
    ]
