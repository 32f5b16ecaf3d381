-- ===== src/Update/Versions.antt =====
-- Version tags (`NormalizeVersionTag`, `compareSemver` and `parseSemver` of
-- daemon/internal/updater/updater.go). A Go `int` has 64 bits.
use Prim.Native.Char.{code}
use rknno_vpn.Prelude.{
  ℕ, ◌+◌, ◌-◌, ◌*◌, ◌^◌, String, Bool, true, false, ◌&&◌, ◌||◌, Option, none, some, ltb, leb, ◌==◌,
  if◌then◌else◌, ℤ, pos, negsuc, is_empty, concat, trim_space, cut_left, trim_prefix,
}

abbrev pub is_v : ℕ → Bool
is_v c = c == 118 || c == 86

unfoldable pub normalize_version_tag : String → String
normalize_version_tag version =
    let trimmed = cut_left is_v (trim_space version) in
    if is_empty trimmed then "v0.0.0" else concat "v" trimmed

-- The value of a text of digits behind a number, or none.
unfoldable pub digits_value : ℕ → String → Option ℕ
digits_value n String.[] = some n
digits_value n (String.◌∷◌ c s) =
    let rest = digits_value (n * 10 + (code c - 48)) s in
    if leb 48 (code c) && leb (code c) 57 then rest else none

-- `strconv.Atoi` without its error: a number out of range is the nearest that an `int` holds.
abbrev pub clamped : Bool → Option ℕ → ℤ
clamped negative none = pos 0
clamped false (some n) = pos (if ltb n (2 ^ 63) then n else 2 ^ 63 - 1)
clamped true (some n) =
    if ltb 0 n then negsuc ((if ltb n (2 ^ 63) then n else 2 ^ 63) - 1) else pos 0

unfoldable pub digits_int : Bool → String → ℤ
unfolding digits_value
digits_int negative s = if is_empty s then pos 0 else clamped negative (digits_value 0 s)

unfoldable pub atoi : String → ℤ
unfolding digits_int
atoi String.[] = pos 0
atoi (String.◌∷◌ c s) =
    if code c == 43
    then digits_int false s
    else if code c == 45
    then digits_int true s
    else digits_int false (String.◌∷◌ c s)

-- The text before the first place of a character, or all of it.
unfoldable pub before_char : ℕ → String → String
before_char sep String.[] = ""
before_char sep (String.◌∷◌ c s) =
    let rest = before_char sep s in if code c == sep then "" else String.◌∷◌ c rest

-- The text behind the first place of a character, or none.
unfoldable pub after_char : ℕ → String → Option String
after_char sep String.[] = none
after_char sep (String.◌∷◌ c s) =
    let rest = after_char sep s in if code c == sep then some s else rest

-- A part that is not there stays 0.
abbrev pub part_value : Option String → ℤ
part_value none = pos 0
part_value (some s) = atoi s

-- `strings.SplitN(v, ".", 3)`: the first two parts, and the rest.
abbrev pub first_part : Option String → Option String
first_part none = none
first_part (some s) = some (before_char 46 s)

abbrev pub next_part : Option String → Option String
next_part none = none
next_part (some s) = after_char 46 s

unfoldable pub parse_semver : String → ℤ × ℤ × ℤ
unfolding before_char after_char atoi
parse_semver v =
    let s = before_char 45 (trim_prefix v "v") in
    let minor = next_part (some s) in
    (part_value (first_part (some s)), part_value (first_part minor), part_value (next_part minor))

abbrev pub up : ℤ → ℕ
up (pos n) = n
up (negsuc n) = 0

abbrev pub down : ℤ → ℕ
down (pos n) = 0
down (negsuc n) = n + 1

abbrev pub ltb_ℤ : ℤ → ℤ → Bool
ltb_ℤ a b = ltb (up a + down b) (up b + down a)

-- A round of the loop of `compareSemver`, with the rounds behind it.
abbrev pub decided : ℤ → ℤ → Bool → Bool
decided a b rest = if ltb_ℤ a b then true else if ltb_ℤ b a then false else rest

unfoldable pub newer : ℤ × ℤ × ℤ → ℤ × ℤ × ℤ → Bool
newer (a, b, c) (a', b', c') = decided a a' (decided b b' (decided c c' false))

unfoldable pub compare_semver : String → String → Bool
unfolding normalize_version_tag parse_semver newer
compare_semver current latest =
    newer (parse_semver (normalize_version_tag current))
      (parse_semver (normalize_version_tag latest))
