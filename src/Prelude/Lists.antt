-- ===== src/Prelude/Lists.antt =====
-- Lists measured by native numbers, and predicates over lists.
use Prim.Native.Nat.{ℕ, zero, suc, ◌+◌, ◌<◌, ◌≤◌}
use mathlib.Core.Path.{◌≡◌, refl}
use mathlib.Core.Logic.{◌≢◌}
use mathlib.Core.Bool.{Bool, true, false}
use mathlib.Core.Option.{Option, none, some}
use mathlib.Core.List.{List, [], ◌∷◌, ◌++◌}
use native.Mathlib.Omega.{arith}

module _ {ℓ} {A : Type ℓ} where
  abbrev pub length : List A → ℕ
  length [] = 0
  length (x ∷ xs) = suc (length xs)

  pub length-append : (xs ys : List A) → length (xs ++ ys) ≡ length xs + length ys
  length-append [] ys = omega arith
  length-append (x ∷ xs) ys = omega (arith, length-append xs ys)

  abbrev pub get_elem? : List A → ℕ → Option A
  get_elem? [] i = none
  get_elem? (x ∷ xs) zero = some x
  get_elem? (x ∷ xs) (suc i) = get_elem? xs i

  -- A write out of bounds changes nothing here.
  abbrev pub set : List A → ℕ → A → List A
  set [] i y = []
  set (x ∷ xs) zero y = y ∷ xs
  set (x ∷ xs) (suc i) y = x ∷ set xs i y

  -- `len(xs) == 0`.
  abbrev pub is_nil : List A → Bool
  is_nil [] = true
  is_nil (x ∷ xs) = false

module _ {ℓ} {A : Type ℓ} where
  pub get_elem?-set_self :
      (xs : List A) (i : ℕ) (x y : A) → get_elem? xs i ≡ some x → get_elem? (set xs i y) i ≡ some y
  get_elem?-set_self [] i x y e = ground (arith, e)
  get_elem?-set_self (z ∷ xs) zero x y e = refl
  get_elem?-set_self (z ∷ xs) (suc i) x y e = get_elem?-set_self xs i x y e

  pub get_elem?-set_ne :
      (xs : List A) (i j : ℕ) (y : A) → i ≢ j → get_elem? (set xs i y) j ≡ get_elem? xs j
  get_elem?-set_ne [] i j y h = refl
  get_elem?-set_ne (z ∷ xs) zero zero y h = absurd (h refl)
  get_elem?-set_ne (z ∷ xs) zero (suc j) y h = refl
  get_elem?-set_ne (z ∷ xs) (suc i) zero y h = refl
  get_elem?-set_ne (z ∷ xs) (suc i) (suc j) y h =
      get_elem?-set_ne xs i j y (λ e. h (omega (arith, e)))

  pub get_elem?-append :
      (xs ys : List A) (i : ℕ) (x : A) → get_elem? xs i ≡ some x → get_elem? (xs ++ ys) i ≡ some x
  get_elem?-append [] ys i x e = ground (arith, e)
  get_elem?-append (z ∷ xs) ys zero x e = e
  get_elem?-append (z ∷ xs) ys (suc i) x e = get_elem?-append xs ys i x e

  pub get_elem?-length : (xs : List A) (y : A) → get_elem? (xs ++ y ∷ []) (length xs) ≡ some y
  get_elem?-length [] y = refl
  get_elem?-length (x ∷ xs) y = get_elem?-length xs y

  pub lt_of_get_elem? : (xs : List A) (i : ℕ) (x : A) → get_elem? xs i ≡ some x → i < length xs
  lt_of_get_elem? [] i x e = absurd (cc e)
  lt_of_get_elem? (z ∷ xs) zero x e = omega arith
  lt_of_get_elem? (z ∷ xs) (suc i) x e = omega (arith, lt_of_get_elem? xs i x e)

  pub le_of_get_elem? : (xs : List A) (i : ℕ) → get_elem? xs i ≡ none → length xs ≤ i
  le_of_get_elem? [] i e = omega arith
  le_of_get_elem? (z ∷ xs) zero e = absurd (cc e)
  le_of_get_elem? (z ∷ xs) (suc i) e = omega (arith, le_of_get_elem? xs i e)

  pub length-set : (xs : List A) (i : ℕ) (y : A) → length (set xs i y) ≡ length xs
  length-set [] i y = refl
  length-set (z ∷ xs) zero y = refl
  length-set (z ∷ xs) (suc i) y = omega (arith, length-set xs i y)

abbrev pub All {ℓ κ} : {A : Type ℓ} → (A → Type κ) → List A → Type κ
All P [] = Unit
All P (x ∷ xs) = P x × All P xs
