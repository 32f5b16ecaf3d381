-- ===== src/Profile/Numbers.antt =====
-- The id that a node without one gets has no outer blanks (`Normalize` of profile.go).
use text.Mathlib.TextLemmas.{cons-append}
use rknno_vpn.Prelude.{
  ℕ, ◌≡◌, refl, String, true, false, arith, is_empty, is_space, trim_left, trim_right, trim_space,
  concat, decimal, solid, solid-concat, solid-decimal, trim_right-solid,
}

trim_solid : (s : String) → solid s ≡ true → trim_space s ≡ s
unfolding trim_space trim_left trim_right solid
trim_solid String.[] h = refl
trim_solid (String.◌∷◌ c s) h = ground (arith, h, trim_right-solid s)

pub trim_space-node : (n : ℕ) → trim_space (concat "node-" (decimal n)) ≡ concat "node-" (decimal n)
unfolding solid is_space
trim_space-node n = trim_solid _ (rw (solid-concat, solid-decimal) refl)

pub is_empty-node : (n : ℕ) → is_empty (concat "node-" (decimal n)) ≡ false
is_empty-node n = rw cons-append refl
