-- ===== src/Prelude/Cuts.antt =====
-- Cuts and sorts of texts: more of Go's package `strings`, and `sort.Strings`.
use Prim.Native.Char.{Char, code}
use Prim.Native.Nat.{ℕ}
use Prim.Native.String.{String}
use mathlib.Core.Path.{◌≡◌, refl, ap, ◌∙◌}
use mathlib.Core.Bool.{Bool, true, false, ◌&&◌, ◌||◌}
use mathlib.Core.List.{List, [], ◌∷◌}
use native.Mathlib.Omega.{arith}
use rknno_vpn.Prelude.Tests.{ltb, ◌==◌, if◌then◌else◌}
use rknno_vpn.Prelude.Text.{str_eq, is_empty}
use rknno_vpn.Prelude.Strings.{contains}

-- `strings.Split` at a single character, given by its code.
add_front : Char → List String → List String
add_front c [] = String.◌∷◌ c "" ∷ []
add_front c (s ∷ ss) = String.◌∷◌ c s ∷ ss

unfoldable pub split_at : ℕ → String → List String
unfolding add_front
split_at sep String.[] = "" ∷ []
split_at sep (String.◌∷◌ c s) =
    let parts = split_at sep s in if code c == sep then "" ∷ parts else add_front c parts

-- `strings.HasPrefix`, `strings.HasSuffix`, `strings.TrimPrefix` and `strings.TrimSuffix`.
unfoldable pub has_prefix : String → String → Bool
has_prefix s String.[] = true
has_prefix String.[] (String.◌∷◌ d p) = false
has_prefix (String.◌∷◌ c s) (String.◌∷◌ d p) =
    let rest = has_prefix s p in if code c == code d then rest else false

unfoldable pub has_suffix : String → String → Bool
has_suffix String.[] p = str_eq "" p
has_suffix (String.◌∷◌ c s) p = str_eq (String.◌∷◌ c s) p || has_suffix s p

drop_prefix : String → String → String
drop_prefix s String.[] = s
drop_prefix String.[] (String.◌∷◌ d p) = ""
drop_prefix (String.◌∷◌ c s) (String.◌∷◌ d p) = drop_prefix s p

unfoldable pub trim_prefix : String → String → String
unfolding drop_prefix
trim_prefix s p = if has_prefix s p then drop_prefix s p else s

unfoldable pub trim_suffix : String → String → String
trim_suffix String.[] p = ""
trim_suffix (String.◌∷◌ c s) p =
    let rest = trim_suffix s p in if str_eq (String.◌∷◌ c s) p then "" else String.◌∷◌ c rest

-- `strings.Trim`, of the characters that a test accepts.
unfoldable pub cut_left : (ℕ → Bool) → String → String
cut_left p String.[] = ""
cut_left p (String.◌∷◌ c s) = let rest = cut_left p s in if p (code c) then rest else String.◌∷◌ c s

unfoldable pub cut_right : (ℕ → Bool) → String → String
cut_right p String.[] = ""
cut_right p (String.◌∷◌ c s) =
    let rest = cut_right p s in if is_empty rest && p (code c) then "" else String.◌∷◌ c rest

unfoldable pub trim_of : (ℕ → Bool) → String → String
unfolding cut_left cut_right
trim_of p s = cut_right p (cut_left p s)

-- The order of `sort.Strings`: by code points, which is that of the bytes of UTF-8.
unfoldable pub text_le : String → String → Bool
text_le String.[] t = true
text_le (String.◌∷◌ c s) String.[] = false
text_le (String.◌∷◌ c s) (String.◌∷◌ d t) =
    let rest = text_le s t in
    if ltb (code c) (code d) then true else if code c == code d then rest else false

insert_text : String → List String → List String
insert_text s [] = s ∷ []
insert_text s (t ∷ ts) = let rest = insert_text s ts in if text_le s t then s ∷ t ∷ ts else t ∷ rest

-- `sort.Strings`.
unfoldable pub sort_texts : List String → List String
unfolding insert_text
sort_texts [] = []
sort_texts (s ∷ ss) = insert_text s (sort_texts ss)

contains-insert_text :
    (s : String) (ts : List String) (x : String)
    → contains (insert_text s ts) x ≡ (str_eq s x || contains ts x)
unfolding insert_text contains
contains-insert_text s [] x = refl
contains-insert_text s (t ∷ ts) x = ground (arith, contains-insert_text s ts x)

pub contains-sort_texts :
    (ss : List String) (x : String) → contains (sort_texts ss) x ≡ contains ss x
unfolding sort_texts contains
contains-sort_texts [] x = refl
contains-sort_texts (s ∷ ss) x =
    contains-insert_text s (sort_texts ss) x ∙ ap (λ b. str_eq s x || b) (contains-sort_texts ss x)

-- `strings.Contains`.
unfoldable pub has_infix : String → String → Bool
unfolding has_prefix
has_infix String.[] p = str_eq "" p
has_infix (String.◌∷◌ c s) p = has_prefix (String.◌∷◌ c s) p || has_infix s p
