-- ===== src/Prelude/Strings.antt =====
-- The functions of Go's package `strings` that the daemon uses, on texts as sequences of code points.
-- The case of a letter beyond ASCII is that of a `CaseMap`, an argument.
use Prim.Native.Char.{Char, code}
use Prim.Native.Nat.{ℕ}
use Prim.Native.String.{String}
use mathlib.Core.Path.{◌≡◌, refl}
use mathlib.Core.Logic.{inl, inr}
use mathlib.Core.Bool.{Bool, true, false, not, ◌&&◌, ◌||◌}
use mathlib.Core.List.{List, [], ◌∷◌, ◌++◌}
use native.Mathlib.Omega.{arith}
use text.Mathlib.TextLemmas.{nil-append, cons-append}
use rknno_vpn.Prelude.Tests.{ltb, leb, ◌==◌, if◌then◌else◌, Bool-cases}
use rknno_vpn.Prelude.Text.{str_eq, eq_iff, is_empty, concat}

-- `unicode.IsSpace`.
unfoldable pub is_space : ℕ → Bool
is_space c =
    (leb 9 c && leb c 13)
    || c == 32
    || c == 0x85
    || c == 0xA0
    || c == 0x1680
    || (leb 0x2000 c && leb c 0x200A)
    || c == 0x2028
    || c == 0x2029
    || c == 0x202F
    || c == 0x205F
    || c == 0x3000

unfoldable pub trim_left : String → String
trim_left String.[] = ""
trim_left (String.◌∷◌ c s) =
    let rest = trim_left s in if is_space (code c) then rest else String.◌∷◌ c s

unfoldable pub trim_right : String → String
trim_right String.[] = ""
trim_right (String.◌∷◌ c s) =
    let rest = trim_right s in if is_empty rest && is_space (code c) then "" else String.◌∷◌ c rest

-- `strings.TrimSpace`.
unfoldable pub trim_space : String → String
unfolding trim_left trim_right
trim_space s = trim_right (trim_left s)

-- How the letters beyond ASCII change case, and the letter that stands for all those that
-- `strings.EqualFold` takes for the same.
pub record CaseMap : Type 0 where
  pub upper : Char → Char
  pub lower : Char → Char
  pub fold : Char → Char

-- The letter at the place of `c` in the second text, where the first one holds it.
unfoldable pub translate : String → String → Char → Char
translate (String.◌∷◌ a from) (String.◌∷◌ b to) c =
    let rest = translate from to c in if code a == code c then b else rest
translate _ _ c = c

abbrev pub small_letters : String
small_letters = "abcdefghijklmnopqrstuvwxyz"

abbrev pub big_letters : String
big_letters = "ABCDEFGHIJKLMNOPQRSTUVWXYZ"

unfoldable pub map_text : (Char → Char) → String → String
map_text f String.[] = ""
map_text f (String.◌∷◌ c s) = String.◌∷◌ (f c) (map_text f s)

unfoldable pub to_upper : CaseMap → String → String
unfolding map_text translate
to_upper m =
    map_text (λ c. if ltb (code c) 128 then translate small_letters big_letters c else m.upper c)

unfoldable pub to_lower : CaseMap → String → String
unfolding map_text translate
to_lower m =
    map_text (λ c. if ltb (code c) 128 then translate big_letters small_letters c else m.lower c)

unfoldable pub equal_fold : CaseMap → String → String → Bool
unfolding map_text translate
equal_fold m s t =
    let fold =
      map_text
        (λ c. if ltb (code c) 128 then translate big_letters small_letters c else m.fold c) in
    str_eq (fold s) (fold t)

-- Whether a list holds a text, and whether it holds none twice.
unfoldable pub contains : List String → String → Bool
contains [] s = false
contains (t ∷ ts) s = str_eq t s || contains ts s

unfoldable pub distinct : List String → Bool
unfolding contains
distinct [] = true
distinct (s ∷ ts) = not (contains ts s) && distinct ts

pub contains-append :
    (xs : List String) (x y : String) → contains (xs ++ x ∷ []) y ≡ (contains xs y || str_eq x y)
unfolding contains
contains-append [] x y = ground arith
contains-append (z ∷ xs) x y = ground (arith, contains-append xs x y)

pub trim_right_idem : (s : String) → trim_right (trim_right s) ≡ trim_right s
unfolding trim_right
trim_right_idem String.[] = refl
trim_right_idem (String.◌∷◌ c s) =
    elim (Bool-cases (is_empty (trim_right s) && is_space (code c))) [
      | inl e ↦ rw (e, trim_right) refl
      | inr e ↦ rw (e, trim_right, trim_right_idem s, e) refl
    ]

trim_left_kept :
    (c : Char) (s : String)
    → is_space (code c) ≡ false
    → trim_left (trim_right (String.◌∷◌ c s)) ≡ trim_right (String.◌∷◌ c s)
unfolding trim_left trim_right
trim_left_kept c s e = ground (arith, e)

trim_left_fixed : (s : String) → trim_left (trim_right (trim_left s)) ≡ trim_right (trim_left s)
unfolding trim_left trim_right
trim_left_fixed String.[] = refl
trim_left_fixed (String.◌∷◌ c s) = elim (Bool-cases (is_space (code c))) [
  | inl e ↦ rw (e, trim_left) (trim_left_fixed s)
  | inr e ↦ rw (e, trim_left) (trim_left_kept c s e)
]

pub trim_space_idem : (s : String) → trim_space (trim_space s) ≡ trim_space s
unfolding trim_space
trim_space_idem s = rw trim_left_fixed (trim_right_idem (trim_left s))

pub distinct-append :
    (xs : List String) (x : String) → distinct (xs ++ x ∷ []) ≡ (distinct xs && not (contains xs x))
unfolding distinct contains
distinct-append [] x = refl
distinct-append (y ∷ xs) x =
    ground (arith, distinct-append xs x, contains-append xs x y, eq_iff x y, eq_iff y x)

-- A text without blanks.
unfoldable pub solid : String → Bool
solid String.[] = true
solid (String.◌∷◌ c s) = not (is_space (code c)) && solid s

pub solid-concat : (s t : String) → solid (concat s t) ≡ (solid s && solid t)
unfolding solid
solid-concat String.[] t = rw nil-append refl
solid-concat (String.◌∷◌ c s) t = rw (cons-append, solid, solid-concat s t) (ground arith)

pub trim_right-solid : (s : String) → solid s ≡ true → trim_right s ≡ s
unfolding solid trim_right
trim_right-solid String.[] h = refl
trim_right-solid (String.◌∷◌ c s) h = ground (arith, h, trim_right-solid s)
