-- ===== src/Prelude/Print.antt =====
-- Decimal print, and the join of texts (`fmt.Sprintf` with `%d`, `strings.Join`).
use Prim.Native.Char.{code}
use Prim.Native.Nat.{ℕ, zero, suc, ◌+◌, ◌*◌, ◌-◌, ◌/◌, ◌%◌, ◌<◌}
use Prim.Native.String.{String}
use mathlib.Core.Path.{◌≡◌, refl, sym, ap, ◌∙◌}
use mathlib.Core.Logic.{inl, inr}
use mathlib.Core.Bool.{true}
use mathlib.Core.List.{List, [], ◌∷◌}
use native.Mathlib.Omega.{arith}
use text.Mathlib.TextLemmas.{nil-append, cons-append}
use rknno_vpn.Prelude.Tests.{if◌then◌else◌, ltb, Bool-cases}
use rknno_vpn.Prelude.Text.{concat}
use rknno_vpn.Prelude.Strings.{is_space, solid, solid-concat}

digit : ℕ → String
digit zero = "0"
digit (suc zero) = "1"
digit (suc (suc zero)) = "2"
digit (suc (suc (suc zero))) = "3"
digit (suc (suc (suc (suc zero)))) = "4"
digit (suc (suc (suc (suc (suc zero))))) = "5"
digit (suc (suc (suc (suc (suc (suc zero)))))) = "6"
digit (suc (suc (suc (suc (suc (suc (suc zero))))))) = "7"
digit (suc (suc (suc (suc (suc (suc (suc (suc zero)))))))) = "8"
digit _ = "9"

-- The digits of a number, on fuel above their count.
decimal_fuel : ℕ → ℕ → String
unfolding digit
decimal_fuel zero n = ""
decimal_fuel (suc fuel) n =
    let more = decimal_fuel fuel (n / 10) in
    if ltb n 10 then digit n else concat more (digit (n % 10))

-- `%d` of a number that is not negative; it has no more digits than its value plus one.
unfoldable pub decimal : ℕ → String
unfolding decimal_fuel
decimal n = decimal_fuel (n + 1) n

-- The value of a text of digits, read after a number.
value : ℕ → String → ℕ
value acc String.[] = acc
value acc (String.◌∷◌ c s) = value (acc * 10 + (code c - 48)) s

value-concat : (acc : ℕ) (s t : String) → value acc (concat s t) ≡ value (value acc s) t
unfolding value
value-concat acc String.[] t = rw nil-append refl
value-concat acc (String.◌∷◌ c s) t = rw cons-append (value-concat (acc * 10 + (code c - 48)) s t)

value-digit : (acc n : ℕ) → n < 10 → value acc (digit n) ≡ acc * 10 + n
unfolding value digit
value-digit acc zero h = omega arith
value-digit acc (suc zero) h = omega arith
value-digit acc (suc (suc zero)) h = omega arith
value-digit acc (suc (suc (suc zero))) h = omega arith
value-digit acc (suc (suc (suc (suc zero)))) h = omega arith
value-digit acc (suc (suc (suc (suc (suc zero))))) h = omega arith
value-digit acc (suc (suc (suc (suc (suc (suc zero)))))) h = omega arith
value-digit acc (suc (suc (suc (suc (suc (suc (suc zero))))))) h = omega arith
value-digit acc (suc (suc (suc (suc (suc (suc (suc (suc zero)))))))) h = omega arith
value-digit acc (suc (suc (suc (suc (suc (suc (suc (suc (suc zero))))))))) h = omega arith
value-digit acc (suc (suc (suc (suc (suc (suc (suc (suc (suc (suc n)))))))))) h =
    absurd (omega arith)

value-decimal_fuel : (fuel n : ℕ) → n < fuel → value 0 (decimal_fuel fuel n) ≡ n
unfolding decimal_fuel
value-decimal_fuel zero n h = absurd (omega arith)
value-decimal_fuel (suc fuel) n h = elim (Bool-cases (ltb n 10)) [
  | inl e ↦ rw e (omega (arith, value-digit 0 n (ground (arith, e))))
  | inr e ↦
      let ih = value-decimal_fuel fuel (n / 10) (ground (arith, e)) in
      rw (e, value-concat, ih, value-digit (n / 10) (n % 10) (omega arith)) (omega arith)
]

-- Different numbers have different digits.
pub decimal-inj : (i j : ℕ) → decimal i ≡ decimal j → i ≡ j
unfolding decimal
decimal-inj i j e =
    sym (value-decimal_fuel (i + 1) i (omega arith))
    ∙ ap (value 0) e
    ∙ value-decimal_fuel (j + 1) j (omega arith)

solid-digit : (n : ℕ) → solid (digit n) ≡ true
unfolding digit solid is_space
solid-digit zero = refl
solid-digit (suc zero) = refl
solid-digit (suc (suc zero)) = refl
solid-digit (suc (suc (suc zero))) = refl
solid-digit (suc (suc (suc (suc zero)))) = refl
solid-digit (suc (suc (suc (suc (suc zero))))) = refl
solid-digit (suc (suc (suc (suc (suc (suc zero)))))) = refl
solid-digit (suc (suc (suc (suc (suc (suc (suc zero))))))) = refl
solid-digit (suc (suc (suc (suc (suc (suc (suc (suc zero)))))))) = refl
solid-digit (suc (suc (suc (suc (suc (suc (suc (suc (suc zero))))))))) = refl
solid-digit (suc (suc (suc (suc (suc (suc (suc (suc (suc (suc n)))))))))) = refl

solid-decimal_fuel : (fuel n : ℕ) → solid (decimal_fuel fuel n) ≡ true
unfolding decimal_fuel solid
solid-decimal_fuel zero n = refl
solid-decimal_fuel (suc fuel) n = elim (Bool-cases (ltb n 10)) [
  | inl e ↦ rw e (solid-digit n)
  | inr e ↦ rw (e, solid-concat, solid-decimal_fuel fuel (n / 10), solid-digit (n % 10)) refl
]

pub solid-decimal : (n : ℕ) → solid (decimal n) ≡ true
unfolding decimal
solid-decimal n = solid-decimal_fuel (n + 1) n

unfoldable pub join : String → List String → String
join sep [] = ""
join sep (s ∷ []) = s
join sep (s ∷ t ∷ rest) = concat s (concat sep (join sep (t ∷ rest)))
