-- ===== src/Update/Newer.antt =====
-- The order of versions, and the normal form of a tag (updater.go).
use Prim.Native.Char.{Char, code}
use text.Mathlib.TextLemmas.{cons-append, nil-append}
use rknno_vpn.Prelude.{
  arith, ◌<◌, ◌⊎◌, ◌↔◌, pos, negsuc, ◌≡◌, refl, sym, ap, ◌∙◌, inl, inr, String, Bool, true, false,
  ◌&&◌, Bool-cases, is_empty, concat, cut_left, trim_left, trim_right, trim_space, is_space,
  trim_right_idem, ℤ,
}
use rknno_vpn.Update.Versions.{
  ltb_ℤ, is_v, normalize_version_tag, decided, newer, parse_semver, compare_semver,
}

newer_asym : (x y : ℤ × ℤ × ℤ) → newer x y ≡ true → newer y x ≡ false
unfolding newer
newer_asym (a, b, c) (a', b', c') h = ground arith

decided_trans :
    (a b c : ℤ) (r s t : Bool)
    → (r ≡ true → s ≡ true → t ≡ true)
    → decided a b r ≡ true
    → decided b c s ≡ true
    → decided a c t ≡ true
decided_trans a b c true true t h i j = let k = h refl refl in ground (arith, k)
decided_trans a b c false s t h i j = ground arith
decided_trans a b c true false t h i j = ground arith

newer_trans : (x y z : ℤ × ℤ × ℤ) → newer x y ≡ true → newer y z ≡ true → newer x z ≡ true
unfolding newer
newer_trans (a, b, c) (a', b', c') (a'', b'', c'') =
    decided_trans a a' a'' _ _ _
      (decided_trans b b' b'' _ _ _ (decided_trans c c' c'' false false false (λ e f. e)))

trim_right-tail :
    (c : Char) (s : String) → trim_right (String.◌∷◌ c s) ≡ String.◌∷◌ c s → trim_right s ≡ s
unfolding trim_right
trim_right-tail c s h = elim (Bool-cases (is_empty (trim_right s) && is_space (code c))) [
  | inl e ↦ absurd (cc (rw e at h))
  | inr e ↦ cc (rw e at h)
]

trim_right-cut_left :
    (s : String) → trim_right s ≡ s → trim_right (cut_left is_v s) ≡ cut_left is_v s
unfolding cut_left
trim_right-cut_left String.[] h = h
trim_right-cut_left (String.◌∷◌ c s) h = elim (Bool-cases (is_v (code c))) [
  | inl e ↦ rw e (trim_right-cut_left s (trim_right-tail c s h))
  | inr e ↦ rw e h
]

cut_left_idem : (s : String) → cut_left is_v (cut_left is_v s) ≡ cut_left is_v s
unfolding cut_left
cut_left_idem String.[] = refl
cut_left_idem (String.◌∷◌ c s) = ground (arith, cut_left_idem s)

-- Where a second version is newer than a first, and a third newer than the second, the third is newer
-- than the first, and the first is not newer than the second.
compare_semver_trans :
    (u v t : String)
    → compare_semver u v ≡ true
    → compare_semver v t ≡ true
    → (compare_semver u t ≡ true) × (compare_semver v u ≡ false)
unfolding compare_semver
compare_semver_trans u v t h k =
    let a = parse_semver (normalize_version_tag u) in
    let b = parse_semver (normalize_version_tag v) in
    let c = parse_semver (normalize_version_tag t) in (newer_trans a b c h k, newer_asym a b h)

-- The order of the integers.
abbrev pub Less : ℤ → ℤ → Type 0
Less (pos m) (pos n) = m < n
Less (pos m) (negsuc n) = ⊥
Less (negsuc m) (pos n) = Unit {0}
Less (negsuc m) (negsuc n) = n < m

-- The order by major, then minor, then patch.
abbrev pub Older : ℤ × ℤ × ℤ → ℤ × ℤ × ℤ → Type 0
Older (a, b, c) (a', b', c') =
    Less a a' ⊎ (((a ≡ a') × Less b b') ⊎ ((a ≡ a') × (b ≡ b') × Less c c'))

ltb_ℤ-Less : (a b : ℤ) → Less a b → (ltb_ℤ a b ≡ true) × (ltb_ℤ b a ≡ false)
ltb_ℤ-Less (pos m) (pos n) h = ground arith
ltb_ℤ-Less (pos m) (negsuc n) h = absurd h
ltb_ℤ-Less (negsuc m) (pos n) h = ground arith
ltb_ℤ-Less (negsuc m) (negsuc n) h = ground arith

Less-ltb_ℤ : (a b : ℤ) → ltb_ℤ a b ≡ true → Less a b
Less-ltb_ℤ (pos m) (pos n) h = ground arith
Less-ltb_ℤ (pos m) (negsuc n) h = absurd (ground arith)
Less-ltb_ℤ (negsuc m) (pos n) h = tt
Less-ltb_ℤ (negsuc m) (negsuc n) h = ground arith

same_ℤ : (a b : ℤ) → ltb_ℤ a b ≡ false → ltb_ℤ b a ≡ false → a ≡ b
same_ℤ (pos m) (pos n) h k = ap pos (ground arith)
same_ℤ (pos m) (negsuc n) h k = absurd (ground arith)
same_ℤ (negsuc m) (pos n) h k = absurd (ground arith)
same_ℤ (negsuc m) (negsuc n) h k = ap negsuc (ground arith)

ltb_ℤ-same : (a b : ℤ) → a ≡ b → ltb_ℤ a b ≡ false
ltb_ℤ-same a b e = rw e (ground arith)

-- What a round decides, by an order of what the rounds behind it compare.
decided_lem :
    (R : Type 0) (a b : ℤ) (rest : Bool)
    → ((rest ≡ true) ↔ R)
    → (decided a b rest ≡ true) ↔ (Less a b ⊎ ((a ≡ b) × R))
decided_lem R a b rest h = (
  λ d. elim (Bool-cases (ltb_ℤ a b)) [
    | inl e ↦ inl (Less-ltb_ℤ a b e)
    | inr e ↦ elim (Bool-cases (ltb_ℤ b a)) [
      | inl f ↦ absurd (cc (rw (e, f) at d))
      | inr f ↦ inr (same_ℤ a b e f, h.0 (rw (e, f) at d))
    ]
  ],
  λ d. elim d [
    | inl l ↦ rw (ltb_ℤ-Less a b l).0 refl
    | inr (e, r) ↦ rw (ltb_ℤ-same a b e, ltb_ℤ-same b a (sym e)) (h.1 r)
  ],
)

-- A version is newer than another exactly if the other comes before it by the numbers of major, minor
-- and patch, in this order, that are read from the two tags.
pub compare_semver_lem :
    (u v : String)
    → (compare_semver u v ≡ true)
      ↔ Older (parse_semver (normalize_version_tag u)) (parse_semver (normalize_version_tag v))
unfolding compare_semver newer
compare_semver_lem u v =
    let (a, b, c) = parse_semver (normalize_version_tag u) in
    let (a', b', c') = parse_semver (normalize_version_tag v) in
    let last : (decided c c' false ≡ true) ↔ Less c c' = (
      λ h. elim ((decided_lem ⊥ c c' false (λ e. cc e, λ e. absurd e)).0 h) [
        | inl l ↦ l
        | inr x ↦ absurd x.1
      ],
      λ l. (decided_lem ⊥ c c' false (λ e. cc e, λ e. absurd e)).1 (inl l),
    ) in
    let middle = decided_lem (Less c c') b b' _ last in
    let first = decided_lem (Less b b' ⊎ ((b ≡ b') × Less c c')) a a' _ middle in
    (
      λ h. elim (first.0 h) [
        | inl l ↦ inl l
        | inr (e, inl l) ↦ inr (inl (e, l))
        | inr (e, inr x) ↦ inr (inr (e, x.0, x.1))
      ],
      λ h. first.1 (elim h [
        | inl l ↦ inl l
        | inr (inl x) ↦ inr (x.0, inl x.1)
        | inr (inr x) ↦ inr (x.0, inr (x.1, x.2))
      ]),
    )

v_front : (t : String) → concat "v" t ≡ String.◌∷◌ "v" t
v_front t = cons-append _ _ _ ∙ ap (String.◌∷◌ "v") (nil-append t)

normalize_filled :
    (t : String)
    → trim_right t ≡ t
    → cut_left is_v t ≡ t
    → is_empty t ≡ false
    → normalize_version_tag (concat "v" t) ≡ concat "v" t
unfolding normalize_version_tag trim_space trim_left trim_right cut_left is_space
normalize_filled t h k e = rw (v_front t) (ground (arith, h, k, e, v_front t))

pub normalize_version_tag_idem :
    (s : String) → normalize_version_tag (normalize_version_tag s) ≡ normalize_version_tag s
unfolding normalize_version_tag cut_left trim_space is_space
normalize_version_tag_idem s = elim (Bool-cases (is_empty (cut_left is_v (trim_space s)))) [
  | inl e ↦ rw e refl
  | inr e ↦ rw e (
      normalize_filled (cut_left is_v (trim_space s))
        (trim_right-cut_left (trim_space s) (trim_right_idem (trim_left s)))
        (cut_left_idem (trim_space s)) e)
]
