-- ===== src/Update/Checks.antt =====
-- The check for a release and its record (`CheckForUpdate` of updater.go, and check_state.go). What the
-- network and the file of the record answer is given by a `CheckWorld`; a time is in nanoseconds.
use rknno_vpn.Prelude.{
  ℕ, ◌+◌, ◌*◌, String, Bool, true, false, not, ◌&&◌, List, [], ◌∷◌, Option, none, some, ltb, ◌==◌,
  str_eq, if◌then◌else◌, ℤ, pos, CaseMap, to_lower, has_infix, has_suffix,
}
use rknno_vpn.Update.Versions.{normalize_version_tag, compare_semver}

pub record UpdateInfo : Type 0 where
  pub current_version : String
  pub latest_version : String
  pub has_update : Bool
  pub changelog : String
  pub module_url : String
  pub apk_url : String
  pub checksum_url : String
  pub module_size : ℤ
  pub apk_size : ℤ

-- A release of GitHub and its assets.
pub record GhAsset : Type 0 where
  pub name : String
  pub browser_download_url : String
  pub size : ℤ

pub record GhRelease : Type 0 where
  pub tag_name : String
  pub body : String
  pub assets : List GhAsset

pub record UpdateCheckState : Type 0 where
  pub last_checked_at : ℕ
  pub current_version : String
  pub latest_version : String
  pub has_update : Bool
  pub changelog : String
  pub module_size : ℤ
  pub apk_size : ℤ
  pub error : String

-- What the request for the release gives.
pub data Fetched : Type 0 where
  fetched : GhRelease → Fetched
  fetch_failed : String → Fetched

-- The file of the record.
pub data CheckFile : Type 0 where
  missing : CheckFile
  unreadable : String → CheckFile
  holds : UpdateCheckState → CheckFile

pub record CheckWorld : Type 0 where
  pub case_map : CaseMap
  pub release : Fetched
  pub stamp : ℕ
  pub write_error : Option String

-- The file, and how many requests were made.
pub record CheckStore : Type 0 where
  pub file : CheckFile
  pub requests : ℕ

-- A turn of the loop over the assets.
unfoldable pub take_asset : CaseMap → GhAsset → UpdateInfo → UpdateInfo
take_asset m a info =
    let name = to_lower m a.name in
    if has_infix name "module" && has_suffix name ".zip"
    then record info { module_url = a.browser_download_url; module_size = a.size }
    else if has_infix name "panel" && has_suffix name ".apk"
    then record info { apk_url = a.browser_download_url; apk_size = a.size }
    else if str_eq name "sha256sums.txt"
    then record info { checksum_url = a.browser_download_url }
    else info

unfoldable pub take_assets : CaseMap → List GhAsset → UpdateInfo → UpdateInfo
unfolding take_asset
take_assets m [] info = info
take_assets m (a ∷ assets) info = take_assets m assets (take_asset m a info)

-- The information that a release gives.
unfoldable pub update_info : CaseMap → String → GhRelease → UpdateInfo
unfolding take_assets normalize_version_tag compare_semver
update_info m current release =
    let version = normalize_version_tag current in
    let info = take_assets m release.assets (record {
      current_version = version;
      latest_version = release.tag_name;
      has_update = false;
      changelog = release.body;
      module_url = "";
      apk_url = "";
      checksum_url = "";
      module_size = pos 0;
      apk_size = pos 0;
    }) in
    record info { has_update = compare_semver version release.tag_name }

unfoldable pub state_from_error : ℕ → String → String → UpdateCheckState
unfolding normalize_version_tag
state_from_error stamp current e = record {
  last_checked_at = stamp;
  current_version = normalize_version_tag current;
  latest_version = "";
  has_update = false;
  changelog = "";
  module_size = pos 0;
  apk_size = pos 0;
  error = e;
}

unfoldable pub state_from_info : ℕ → UpdateInfo → UpdateCheckState
state_from_info stamp info = record {
  last_checked_at = stamp;
  current_version = info.current_version;
  latest_version = info.latest_version;
  has_update = info.has_update;
  changelog = info.changelog;
  module_size = info.module_size;
  apk_size = info.apk_size;
  error = "";
}

-- `updateCheckStateFromResult` of what `CheckForUpdate` gives.
unfoldable pub state_from_result : CheckWorld → String → Fetched → UpdateCheckState
unfolding state_from_error state_from_info update_info
state_from_result w current (fetch_failed e) = state_from_error w.stamp current e
state_from_result w current (fetched release) =
    state_from_info w.stamp (update_info w.case_map current release)

abbrev pub fetch_error : Fetched → Option String
fetch_error (fetch_failed e) = some e
fetch_error (fetched release) = none

abbrev pub first_of : Option String → Option String → Option String
first_of none e = e
first_of (some e) _ = some e

-- `WriteUpdateCheckState`: the file holds the state unless it is not written.
abbrev pub written : Option String → UpdateCheckState → CheckFile → CheckFile
written none s file = holds s
written (some e) s file = file

-- The check with its record; the Boolean says that a request was made.
abbrev pub Checked : Type 0
Checked = CheckStore × Option UpdateCheckState × Bool × Option String

unfoldable pub request_update : CheckWorld → String → CheckStore → Checked
unfolding state_from_result
request_update w current s =
    let state = state_from_result w current w.release in
    (
      record { file = written w.write_error state s.file; requests = s.requests + 1 },
      some state,
      true,
      first_of (fetch_error w.release) w.write_error,
    )

abbrev pub update_check_min_interval : ℕ
update_check_min_interval = 24 * 3600 * 1000000000

-- Whether a record is of the version, and not as old as the interval.
unfoldable pub is_fresh : String → ℕ → UpdateCheckState → Bool
is_fresh current now state =
    str_eq (normalize_version_tag state.current_version) (normalize_version_tag current)
    && not (state.last_checked_at == 0)
    && ltb now (state.last_checked_at + update_check_min_interval)

-- `MaybeCheckForUpdate`.
unfoldable pub check_after : CheckFile → CheckWorld → String → ℕ → CheckStore → Checked
unfolding request_update is_fresh
check_after missing w current now s = request_update w current s
check_after (unreadable e) w current now s = (s, none, false, some e)
check_after (holds state) w current now s =
    if is_fresh current now state then (s, some state, false, none) else request_update w current s

unfoldable pub maybe_check_for_update : CheckWorld → String → ℕ → CheckStore → Checked
unfolding check_after
maybe_check_for_update w current now s = check_after s.file w current now s
