-- ===== src/Update/Samples.antt =====
-- Checks, checksums and downloads at concrete answers: the properties applied.
use rknno_vpn.Prelude.{
  ◌↔◌, arith, ◌≡◌, refl, String, true, false, [], ◌∷◌, none, some, pos, concat, CaseMap, split_at,
  trim_space, cut_left, cut_right, is_space, has_infix, has_suffix, to_lower, equal_fold,
}
use rknno_vpn.Update.State.{Clock}
use rknno_vpn.Update.Versions.{parse_semver, normalize_version_tag, compare_semver}
use rknno_vpn.Update.Newer.{Older, compare_semver_lem}
use rknno_vpn.Update.Checks.{
  GhRelease, fetched, missing, CheckWorld, CheckStore, state_from_result, maybe_check_for_update,
}
use rknno_vpn.Update.Throttle.{maybe_check_twice}
use rknno_vpn.Update.Checksums.{
  module_zip, panel_apk, present, absent, hashed, Downloads, parse_lines, verify_checksums,
}
use rknno_vpn.Update.Verified.{HasHash, hashes_of, verify_checksums_lem}
use rknno_vpn.Update.Download.{answered, downloaded, DownloadAnswers}

compare_semver_lem_example :
    (compare_semver "v1.2.3" "v1.10.0-beta" ≡ true)
    ↔ Older
        (parse_semver (normalize_version_tag "v1.2.3"))
        (parse_semver (normalize_version_tag "v1.10.0-beta"))
compare_semver_lem_example = compare_semver_lem "v1.2.3" "v1.10.0-beta"

-- No letter changes its case but those of ASCII.
abbrev plain : CaseMap
plain = record { upper = λ c. c; lower = λ c. c; fold = λ c. c }

abbrev release : GhRelease
release = record {
  tag_name = "v1.3.0";
  body = "notes";
  assets =
      record { name = "RKN-Module.zip"; browser_download_url = "https://x/m"; size = pos 10 } ∷ [];
}

abbrev online : CheckWorld
online = record { case_map = plain; release = fetched release; stamp = 1000; write_error = none }

abbrev unchecked : CheckStore
unchecked = record { file = missing; requests = 0 }

maybe_check_twice_example :
    let next = (maybe_check_for_update online "v1.2.0" 900 unchecked).0 in
    maybe_check_for_update online "1.2.0" 2000 next
    ≡ (next, some (state_from_result online "v1.2.0" (fetched release)), false, none)
unfolding maybe_check_for_update trim_space is_space cut_left
maybe_check_twice_example =
    maybe_check_twice online online "v1.2.0" "1.2.0" 900 2000 unchecked refl refl (omega arith) refl
      (omega arith)

abbrev digest : String
digest = "0123456789abcdef0123456789abcdef0123456789abcdef0123456789abcdef"

-- The module is there, and the panel is not.
abbrev downloads : Downloads
downloads = record {
  stat = λ a. elim a [ module_zip ↦ present | panel_apk ↦ absent ];
  hash = λ a. hashed digest;
}

abbrev sums : String
sums = concat digest "  rknnovpn-module.zip"

verify_checksums_lem_example :
    HasHash plain downloads module_zip
      (hashes_of module_zip (parse_lines plain (split_at 10 (trim_space sums))))
unfolding verify_checksums split_at trim_space is_space has_infix to_lower cut_left cut_right
    has_suffix equal_fold
verify_checksums_lem_example = verify_checksums_lem plain downloads sums module_zip refl refl

abbrev steady : Clock
steady = record { created = "t0"; time = λ n. "t1"; write_error = λ n. none }

abbrev all_answers : DownloadAnswers
all_answers = record {
  at_start = none;
  before_check = none;
  after_download = none;
  before_complete = none;
  checking = answered "v1.3.0" true;
  progress = (5, 10) ∷ (10, 10) ∷ [];
  download = downloaded "/d/module.zip" "/d/panel.apk";
  verification = none;
}
