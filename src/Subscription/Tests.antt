-- ===== src/Subscription/Tests.antt =====
-- Subscriptions at concrete inputs: the properties applied.
use rknno_vpn.Prelude.{◌≡◌, refl, none, some, arith, is_space, trim_space, String}
use rknno_vpn.Subscription.Previews.{PreviewCache, put_preview, take_preview}
use rknno_vpn.Subscription.Taking.{take_preview-put_preview}

abbrev no_previews : PreviewCache String
no_previews id = none

take_preview-put_preview_example :
    let taken =
      take_preview (put_preview no_previews (some "a1") (λ id. id) 5).0 " a1" 300000000005 in
    (taken.1 ≡ some "a1") × ((take_preview taken.0 " a1" 9).1 ≡ none)
unfolding trim_space is_space
take_preview-put_preview_example =
    take_preview-put_preview no_previews "a1" " a1" (λ id. id) 5 300000000005 9 refl refl
      (omega arith)
