-- ===== src/Update/Checksums.antt =====
-- The checksums of a downloaded update (`verifyChecksums` of daemon/internal/updater/updater.go). What
-- `os.Stat` and `sha256File` give for an artifact is an argument, and does not change meanwhile.
use Prim.Native.Char.{code}
use rknno_vpn.Prelude.{
  ℕ, ◌+◌, String, Bool, true, false, ◌&&◌, ◌||◌, List, [], ◌∷◌, ◌++◌, Option, none, some, leb, ◌==◌,
  if◌then◌else◌, is_nil, is_empty, concat, join, trim_space, split_at, cut_left, cut_right, CaseMap,
  to_lower, equal_fold, has_infix, has_suffix,
}
use rknno_vpn.Update.Versions.{before_char, after_char}

pub data Artifact : Type 0 where
  module_zip panel_apk : Artifact

unfoldable pub artifact_name : Artifact → String
artifact_name module_zip = "module.zip"
artifact_name panel_apk = "panel.apk"

pub data Stat : Type 0 where
  present absent : Stat
  stat_failed : String → Stat

pub data Hashed : Type 0 where
  hashed hash_failed : String → Hashed

pub record Downloads : Type 0 where
  pub stat : Artifact → Stat
  pub hash : Artifact → Hashed

-- The map `required`: a name that is not in it is none.
pub record Required : Type 0 where
  pub of_module : Option Bool
  pub of_panel : Option Bool

abbrev pub required_of : Artifact → Required → Option Bool
required_of module_zip m = m.of_module
required_of panel_apk m = m.of_panel

abbrev pub mark : Artifact → Bool → Required → Required
mark module_zip b m = record m { of_module = some b }
mark panel_apk b m = record m { of_panel = some b }

-- `false` with an error is a refusal.
pub data Verifying : Type 0 where
  ongoing : Required → Verifying
  refused : String → Verifying

abbrev pub and_verify : Verifying → (Required → Verifying) → Verifying
and_verify (ongoing m) k = k m
and_verify (refused e) k = refused e

abbrev pub require_stat : Stat → Artifact → Required → Verifying
require_stat present a m = ongoing (mark a false m)
require_stat absent a m = ongoing m
require_stat (stat_failed e) a m =
    refused (concat "stat " (concat (artifact_name a) (concat ": " e)))

unfoldable pub required_artifacts : Downloads → Verifying
unfolding artifact_name
required_artifacts d =
    and_verify
      (require_stat (d.stat module_zip) module_zip (record { of_module = none; of_panel = none }))
      (require_stat (d.stat panel_apk) panel_apk)

is_hex : ℕ → Bool
is_hex c = (leb 48 c && leb c 57) || (leb 97 c && leb c 102) || (leb 65 c && leb c 70)

all_hex : String → Bool
unfolding is_hex
all_hex String.[] = true
all_hex (String.◌∷◌ c s) = is_hex (code c) && all_hex s

text_length : String → ℕ
text_length String.[] = 0
text_length (String.◌∷◌ c s) = text_length s + 1

-- A hash of 32 bytes in hexadecimal digits: what its length and `hex.DecodeString` let through.
unfoldable pub is_digest : String → Bool
unfolding all_hex text_length
is_digest s = text_length s == 64 && all_hex s

last_text : String → List String → String
last_text s [] = s
last_text s (t ∷ ts) = last_text t ts

-- `filepath.Base`.
unfoldable pub base_name : String → String
unfolding last_text
base_name s =
    let base = last_text "" (split_at 47 (cut_right (λ c. c == 47) s)) in
    if is_empty s then "." else if is_empty base then "/" else base

unfoldable pub artifact_of : CaseMap → String → Option Artifact
artifact_of m name =
    let lower = to_lower m name in
    if has_infix lower "module" && has_suffix lower ".zip"
    then some module_zip
    else if has_infix lower "panel" && has_suffix lower ".apk"
    then some panel_apk
    else none

-- The artifact and the hash of a line, or none for a line that is passed over.
abbrev pub entry_of : Option Artifact → String → Option (Artifact × String)
entry_of none hash = none
entry_of (some a) hash = some (a, hash)

abbrev pub parse_rest : CaseMap → String → Option String → Option (Artifact × String)
parse_rest m hash none = none
parse_rest m hash (some rest) =
    if is_digest hash
    then entry_of (artifact_of m (base_name (cut_left (λ c. c == 32 || c == 42) rest))) hash
    else none

unfoldable pub parse_line : CaseMap → String → Option (Artifact × String)
unfolding is_digest base_name artifact_of before_char after_char
parse_line m given =
    let line = trim_space given in
    parse_rest m (trim_space (before_char 32 line)) (after_char 32 line)

abbrev pub with_entry :
    Option (Artifact × String) → List (Artifact × String) → List (Artifact × String)
with_entry none entries = entries
with_entry (some e) entries = e ∷ entries

unfoldable pub parse_lines : CaseMap → List String → List (Artifact × String)
unfolding parse_line
parse_lines m [] = []
parse_lines m (line ∷ lines) = with_entry (parse_line m line) (parse_lines m lines)

-- A turn of the loop for a line with an entry.
abbrev pub compare_hash : CaseMap → Artifact → String → Hashed → Required → Verifying
compare_hash c a expected (hash_failed e) m =
    refused (concat "hash " (concat (artifact_name a) (concat ": " e)))
compare_hash c a expected (hashed actual) m =
    if equal_fold c actual expected
    then elim (required_of a m) [ none ↦ ongoing m | some b ↦ ongoing (mark a true m) ]
    else refused
        (concat (artifact_name a) (concat ": expected " (concat expected (concat ", got " actual))))

abbrev pub is_marked : Option Bool → Bool
is_marked none = false
is_marked (some b) = b

abbrev pub check_present : CaseMap → Downloads → Stat → Artifact → String → Required → Verifying
check_present c d absent a expected m = ongoing m
check_present c d s a expected m =
    if is_marked (required_of a m)
    then refused (concat (artifact_name a) ": duplicate checksum entry")
    else compare_hash c a expected (d.hash a) m

unfoldable pub check_entry : CaseMap → Downloads → Artifact × String → Required → Verifying
unfolding artifact_name
check_entry c d (a, expected) m = check_present c d (d.stat a) a expected m

unfoldable pub check_entries : CaseMap → Downloads → List (Artifact × String) → Required → Verifying
unfolding check_entry
check_entries c d [] m = ongoing m
check_entries c d (e ∷ entries) m = and_verify (check_entry c d e m) (check_entries c d entries)

abbrev pub missing_of : Artifact → Option Bool → List String
missing_of a (some false) = artifact_name a ∷ []
missing_of a _ = []

-- The names that have no entry; the code gives them in any order.
unfoldable pub missing_names : Required → List String
unfolding artifact_name
missing_names m = missing_of module_zip m.of_module ++ missing_of panel_apk m.of_panel

abbrev pub nothing_required : Required → Bool
nothing_required m = elim m.of_module [
  | some b ↦ false
  | none ↦ elim m.of_panel [ some b ↦ false | none ↦ true ]
]

-- The error, or none where the checksums are verified.
abbrev pub verdict : Verifying → Option String
verdict (refused e) = some e
verdict (ongoing m) =
    let names = missing_names m in
    if is_nil names then none else some (concat "missing checksum entries for " (join ", " names))

unfoldable pub verify_checksums : CaseMap → Downloads → String → Option String
unfolding required_artifacts parse_lines check_entries missing_names
verify_checksums c d text = verdict (
    and_verify (required_artifacts d) (λ m.
      if nothing_required m
      then refused "no downloaded update artifacts to verify"
      else check_entries c d (parse_lines c (split_at 10 (trim_space text))) m))
