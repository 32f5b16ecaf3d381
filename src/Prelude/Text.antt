-- ===== src/Prelude/Text.antt =====
-- Go strings are native texts, compared whole; a Go map keyed by strings is an association list.
use Prim.Native.String.{String}
use Prim.Native.String
use mathlib.Core.Path.{◌≡◌, refl}
use mathlib.Core.Bool.{Bool, true, false}
use mathlib.Core.List.{List, [], ◌∷◌}
use mathlib.Core.Option.{Option, none, some}
use native.Mathlib.Omega.{arith}
use rknno_vpn.Prelude.Tests.{if◌then◌else◌}
pub use text.Mathlib.Text.{◌==◌ as str_eq}
pub use text.Mathlib.TextEquality.{eq_iff}

-- `s == ""`.
abbrev pub is_empty : String → Bool
is_empty String.[] = true
is_empty (String.◌∷◌ _ _) = false

-- Concatenation, as `fmt.Errorf` with `%s` and `+` do it.
abbrev pub concat : String → String → String
concat s t = String.◌++◌ s t

abbrev pub StringMap {ℓ} : Type ℓ → Type ℓ
StringMap V = List (String × V)

-- `v, ok := m[key]`: the first entry of the key.
unfoldable pub lookup {ℓ} : {V : Type ℓ} → String → StringMap V → Option V
lookup key [] = none
lookup key (entry ∷ entries) = if str_eq entry.0 key then some entry.1 else lookup key entries

-- `m[key] = v`, which replaces the value in its place.
unfoldable pub put {ℓ} : {V : Type ℓ} → StringMap V → String → V → StringMap V
put [] key v = (key, v) ∷ []
put (entry ∷ entries) key v =
    if str_eq entry.0 key then (key, v) ∷ entries else entry ∷ put entries key v

-- `delete(m, key)`.
unfoldable pub delete {ℓ} : {V : Type ℓ} → StringMap V → String → StringMap V
delete [] key = []
delete (entry ∷ entries) key =
    let rest = delete entries key in if str_eq entry.0 key then rest else entry ∷ rest

pub lookup-put_self {ℓ} :
    {V : Type ℓ} (m : StringMap V) (key : String) (v : V) → lookup key (put m key v) ≡ some v
unfolding lookup put
lookup-put_self [] key v = ground (arith, eq_iff key key)
lookup-put_self (entry ∷ entries) key v =
    ground (arith, eq_iff key key, lookup-put_self entries key v)

pub lookup-put_ne {ℓ} :
    {V : Type ℓ} (m : StringMap V) (key other : String) (v : V)
    → str_eq key other ≡ false
    → lookup other (put m key v) ≡ lookup other m
unfolding lookup put
lookup-put_ne [] key other v h = ground arith
lookup-put_ne (entry ∷ entries) key other v h = ground (
  arith,
  eq_iff entry.0 key,
  eq_iff entry.0 other,
  eq_iff key other,
  lookup-put_ne entries key other v h,
)

pub lookup-delete_self {ℓ} :
    {V : Type ℓ} (m : StringMap V) (key : String) → lookup key (delete m key) ≡ none
unfolding lookup delete
lookup-delete_self [] key = refl
lookup-delete_self (entry ∷ entries) key = ground (arith, lookup-delete_self entries key)

pub lookup-delete_ne {ℓ} :
    {V : Type ℓ} (m : StringMap V) (key other : String)
    → str_eq key other ≡ false
    → lookup other (delete m key) ≡ lookup other m
unfolding lookup delete
lookup-delete_ne [] key other h = refl
lookup-delete_ne (entry ∷ entries) key other h = ground (
  arith,
  eq_iff entry.0 key,
  eq_iff entry.0 other,
  eq_iff key other,
  lookup-delete_ne entries key other h,
)
