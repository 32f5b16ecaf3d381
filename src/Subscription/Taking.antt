-- ===== src/Subscription/Taking.antt =====
-- A preview is taken once, and in time (subscription_preview_cache.go).
use rknno_vpn.Prelude.{
  ◌-◌, ◌+◌, ◌≤◌, ◌<◌, ◌≡◌, refl, inl, inr, String, true, false, none, some, arith, ltb, eq_iff,
  is_empty, trim_space, Bool-cases,
}
use rknno_vpn.Runtime.Types.{Time}
use rknno_vpn.Subscription.Previews.{
  subscription_preview_ttl, CachedSubscriptionPreview, PreviewCache, too_old, drop_old, write,
  put_preview, take_preview,
}

module _ {A : Type 0} where
  take_live :
      (cache : PreviewCache A) (id given : String) (now : Time)
      (cached : CachedSubscriptionPreview A)
      → cache id ≡ some cached
      → too_old now cached ≡ false
      → trim_space given ≡ id
      → is_empty id ≡ false
      → take_preview cache given now ≡ (write (drop_old now cache) id none, some cached.preview)
  unfolding take_preview drop_old
  take_live cache id given now cached e old trimmed named =
      rw (take_preview, drop_old, trimmed, named, e, old, trimmed, old) refl

  take_none :
      (cache : PreviewCache A) (given : String) (now : Time)
      → cache (trim_space given) ≡ none
      → (take_preview cache given now).1 ≡ none
  unfolding take_preview drop_old
  take_none cache given now e = elim (Bool-cases (is_empty (trim_space given))) [
    | inl f ↦ rw (take_preview, drop_old, f) refl
    | inr f ↦ rw (take_preview, drop_old, f, e) refl
  ]

  -- A preview that is put is taken within five minutes by its id, with or without outer blanks, and then
  -- gone: a later call with this id takes nothing, at any time.
  pub take_preview-put_preview :
      (cache : PreviewCache A) (id given : String) (preview : String → A) (now later last : Time)
      → is_empty id ≡ false
      → trim_space given ≡ id
      → later ≤ now + subscription_preview_ttl
      → let taken = take_preview (put_preview cache (some id) preview now).0 given later in
        (taken.1 ≡ some (preview id)) × ((take_preview taken.0 given last).1 ≡ none)
  unfolding put_preview
  take_preview-put_preview cache id given preview now later last named trimmed h =
      let fresh : ltb subscription_preview_ttl (later - now) ≡ false = ground (arith, h) in
      let self = (eq_iff id id).1 refl in
      let cached : CachedSubscriptionPreview A = record { preview = preview id; cached_at = now } in
      let q =
        take_live (put_preview cache (some id) preview now).0 id given later cached
          (rw (put_preview, self) refl) fresh trimmed named in
      rw q (refl, take_none _ given last (rw (trimmed, self) refl))

  -- What is put is not taken any more after five minutes.
  pub take_preview_late :
      (cache : PreviewCache A) (id given : String) (preview : String → A) (now later : Time)
      → trim_space given ≡ id
      → now + subscription_preview_ttl < later
      → (take_preview (put_preview cache (some id) preview now).0 given later).1 ≡ none
  unfolding take_preview put_preview drop_old
  take_preview_late cache id given preview now later trimmed h =
      let old : ltb subscription_preview_ttl (later - now) ≡ true = ground (arith, h) in
      let self = (eq_iff id id).1 refl in
      elim (Bool-cases (is_empty id)) [
        | inl e ↦ rw (take_preview, drop_old, trimmed, e) refl
        | inr e ↦ rw (take_preview, drop_old, trimmed, e, self, old) refl
      ]
