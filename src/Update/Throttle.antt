-- ===== src/Update/Throttle.antt =====
-- How often a release is asked for (`MaybeCheckForUpdate` of check_state.go).
use rknno_vpn.Prelude.{
  arith, ℕ, ◌+◌, ◌<◌, ◌≡◌, refl, sym, ap, ◌∙◌, inl, inr, String, true, false, List, [], ◌∷◌, Option,
  none, some, eq_iff, CaseMap, Bool-cases,
}
use rknno_vpn.Update.Versions.{normalize_version_tag}
use rknno_vpn.Update.Newer.{normalize_version_tag_idem}
use rknno_vpn.Update.Checks.{
  UpdateInfo, GhAsset, UpdateCheckState, Fetched, fetched, fetch_failed, CheckFile, missing,
  unreadable, holds, CheckWorld, CheckStore, take_asset, take_assets, update_info, state_from_error,
  state_from_info, state_from_result, written, request_update, update_check_min_interval, is_fresh,
  check_after, maybe_check_for_update,
}

current-take_asset :
    (m : CaseMap) (a : GhAsset) (info : UpdateInfo)
    → (take_asset m a info).current_version ≡ info.current_version
unfolding take_asset
current-take_asset m a info = ground arith

current-take_assets :
    (m : CaseMap) (assets : List GhAsset) (info : UpdateInfo)
    → (take_assets m assets info).current_version ≡ info.current_version
unfolding take_assets
current-take_assets m [] info = refl
current-take_assets m (a ∷ assets) info =
    current-take_assets m assets (take_asset m a info) ∙ current-take_asset m a info

-- The record of a check is of the version that was checked.
state_of_version :
    (w : CheckWorld) (current : String) (f : Fetched)
    → let state = state_from_result w current f in
      (state.current_version ≡ normalize_version_tag current) × (state.last_checked_at ≡ w.stamp)
unfolding state_from_result update_info state_from_error state_from_info
state_of_version w current (fetch_failed e) = (refl, refl)
state_of_version w current (fetched release) =
    (current-take_assets w.case_map release.assets _, refl)

fresh_state :
    (current other : String) (now : ℕ) (state : UpdateCheckState)
    → state.current_version ≡ normalize_version_tag current
    → normalize_version_tag other ≡ normalize_version_tag current
    → 0 < state.last_checked_at
    → now < state.last_checked_at + update_check_min_interval
    → is_fresh other now state ≡ true
unfolding is_fresh
fresh_state current other now state h k p q =
    let e = ap normalize_version_tag h ∙ normalize_version_tag_idem current ∙ sym k in
    ground (
      arith,
      eq_iff (normalize_version_tag state.current_version) (normalize_version_tag other),
      e,
      p,
      q,
    )

checked_after :
    (file : CheckFile) (w : CheckWorld) (current : String) (now : ℕ) (s : CheckStore)
    → (check_after file w current now s).2 ≡ true
    → w.write_error ≡ none
    → (check_after file w current now s).0.file ≡ holds (state_from_result w current w.release)
unfolding check_after request_update
checked_after missing w current now s made ok =
    ap (λ (o : Option String). written o (state_from_result w current w.release) s.file) ok
checked_after (unreadable e) w current now s made ok = absurd (cc made)
checked_after (holds state) w current now s made ok =
    elim (Bool-cases (is_fresh current now state)) [
      | inl e ↦ absurd (cc (rw e at made))
      | inr e ↦
          rw e (
            ap (λ (o : Option String). written o (state_from_result w current w.release) s.file) ok)
    ]

-- What a check that was made leaves in the file.
checked_file :
    (w : CheckWorld) (current : String) (now : ℕ) (s : CheckStore)
    → (maybe_check_for_update w current now s).2 ≡ true
    → w.write_error ≡ none
    → (maybe_check_for_update w current now s).0.file
      ≡ holds (state_from_result w current w.release)
unfolding maybe_check_for_update
checked_file w current now s made ok = checked_after s.file w current now s made ok

fresh_after :
    (file : CheckFile) (w : CheckWorld) (current : String) (now : ℕ) (s : CheckStore)
    (state : UpdateCheckState)
    → file ≡ holds state
    → is_fresh current now state ≡ true
    → check_after file w current now s ≡ (s, some state, false, none)
unfolding check_after
fresh_after file w current now s state e f = rw (e, check_after, f) refl

-- After a check that asked for the release, and whose record was written at a time that is not the
-- zero time, a check of the same version less than 24 hours after that record asks for nothing,
-- changes nothing, and gives the record of the first check without an error.
pub maybe_check_twice :
    (w w' : CheckWorld) (current other : String) (now later : ℕ) (s : CheckStore)
    → (maybe_check_for_update w current now s).2 ≡ true
    → w.write_error ≡ none
    → 0 < w.stamp
    → normalize_version_tag other ≡ normalize_version_tag current
    → later < w.stamp + update_check_min_interval
    → let next = (maybe_check_for_update w current now s).0 in
      maybe_check_for_update w' other later next
      ≡ (next, some (state_from_result w current w.release), false, none)
unfolding maybe_check_for_update
maybe_check_twice w w' current other now later s made ok stamped same soon =
    let state = state_from_result w current w.release in
    let next = (maybe_check_for_update w current now s).0 in
    let (version, time) = state_of_version w current w.release in
    fresh_after next.file w' other later next state (checked_file w current now s made ok)
      (fresh_state current other later state version same (rw time stamped) (rw time soon))
