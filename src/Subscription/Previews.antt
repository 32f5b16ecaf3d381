-- ===== src/Subscription/Previews.antt =====
-- The previews of fetched subscriptions (subscription_preview_cache.go). A preview only passes through, so
-- it is an element of any type; a nil cache and a zero instant in place of the present one do not occur
-- here. The id that `rand.Read` gives, or its failure, is an argument.
use rknno_vpn.Prelude.{
  ℕ, ◌-◌, String, Bool, Option, none, some, ltb, str_eq, is_empty, trim_space, if◌then◌else◌,
}
use rknno_vpn.Runtime.Types.{Time}

-- Five minutes, in nanoseconds.
abbrev pub subscription_preview_ttl : ℕ
subscription_preview_ttl = 300000000000

pub record CachedSubscriptionPreview (A : Type 0) : Type 0 where
  pub preview : A
  pub cached_at : Time

abbrev pub PreviewCache : Type 0 → Type 0
PreviewCache A = String → Option (CachedSubscriptionPreview A)

module _ {A : Type 0} where
  abbrev pub too_old : Time → CachedSubscriptionPreview A → Bool
  too_old now cached = ltb subscription_preview_ttl (now - cached.cached_at)

  -- `cleanupLocked` of this cache.
  unfoldable pub drop_old : Time → PreviewCache A → PreviewCache A
  drop_old now cache id = elim (cache id) [
    | none ↦ none
    | some cached ↦ if too_old now cached then none else some cached
  ]

  -- A write of the map, or a deletion.
  abbrev pub write : PreviewCache A → String → Option (CachedSubscriptionPreview A) → PreviewCache A
  write cache id cached key = if str_eq id key then cached else cache key

  -- `Put`; no id is the failure to make one. The preview is given its id before it comes here.
  unfoldable pub put_preview :
      PreviewCache A → Option String → (String → A) → Time → PreviewCache A × Option String
  put_preview cache none preview now = (cache, none)
  put_preview cache (some id) preview now = (
    write (drop_old now cache) id (some (record { preview = preview id; cached_at = now })),
    some id,
  )

  unfoldable pub take_preview : PreviewCache A → String → Time → PreviewCache A × Option A
  take_preview cache given now =
      let id = trim_space given in
      let live = drop_old now cache in
      if is_empty id then (cache, none) else elim (live id) [
        | none ↦ (live, none)
        | some cached ↦
            (write live id none, if too_old now cached then none else some cached.preview)
      ]
