-- ===== src/Bookkeeping/Vouchers/Rounding.antt =====
-- How far `money_text` may be from the number that it prints.
use invoice_hub.Bookkeeping.Money.{Decimal, decimal_of_text, decimal_of_text-format_f}
use invoice_hub.Bookkeeping.Vouchers.Row.{quantized, money_text}
use invoice_hub.Prelude.{
  Bool, arith, suc, zero, ℕ, ◌*◌, ◌+◌, ◌<◌, ◌^◌, ◌≤◌, ap, false, leb, ◌-◌, ◌/◌, ◌∙◌, ◌≡◌, refl,
  some,
}
use native.Mathlib.Nat.{div-mul-le_self, lt-div-mul-add, one-le-pow, pow-suc}

-- A quotient that is rounded half up, at the scale of the number.
rounded :
    (c k q : ℕ)
    → q * (2 * k) ≤ 2 * c + k
    → 2 * c + k < q * (2 * k) + 2 * k
    → (2 * (q * (k * 10 * 10)) ≤ 2 * (c * 100) + k * 10 * 10)
      × (2 * (c * 100) ≤ 2 * (q * (k * 10 * 10)) + k * 10 * 10)
rounded c k q h l = (omega arith, omega arith)

many_places : (n : ℕ) → leb (suc (suc (suc n))) 2 ≡ false
many_places n = ground arith

two_less : (n : ℕ) → suc (suc (suc n)) - 2 ≡ suc n
two_less n = omega arith

power_of : (n : ℕ) → 10 ^ suc (suc (suc n)) ≡ 10 ^ suc n * 10 * 10
power_of n = pow-suc 10 (suc (suc n)) ∙ ap (λ k. k * 10) (pow-suc 10 (suc n))

ten_positive : 0 < 10
ten_positive = omega arith

two_powers : (n : ℕ) → 0 < 2 * 10 ^ suc n
two_powers n = omega (arith, one-le-pow (suc n) 10 ten_positive)

-- A number with its sign left out, of a coefficient and places: the quantized one is half a cent
-- away at most.
quantized-near :
    (b : Bool) (c places : ℕ)
    → let q = (quantized (record { negative = b; coefficient = c; places = places })).coefficient in
      (2 * (q * 10 ^ places) ≤ 2 * (c * 100) + 10 ^ places)
      × (2 * (c * 100) ≤ 2 * (q * 10 ^ places) + 10 ^ places)
unfolding quantized
quantized-near b c zero = (omega arith, omega arith)
quantized-near b c (suc zero) = (omega arith, omega arith)
quantized-near b c (suc (suc zero)) = (omega arith, omega arith)
quantized-near b c (suc (suc (suc n))) =
    rw (many_places n, two_less n, power_of n)
      (rounded c (10 ^ suc n) ((2 * c + 10 ^ suc n) / (2 * 10 ^ suc n))
        (div-mul-le_self (2 * c + 10 ^ suc n) (2 * 10 ^ suc n))
        (lt-div-mul-add {b = 2 * 10 ^ suc n} (two_powers n)))

-- A number and the amount it is printed as, to the cent, with the same sign: at the scale of the
-- number, they differ by half a cent at most.
pub record IsNear (d q : Decimal) : Type 0 where
  pub to_cents : q.places ≡ 2
  pub same_sign : q.negative ≡ d.negative
  pub not_above : 2 * (q.coefficient * 10 ^ d.places) ≤ 2 * (d.coefficient * 100) + 10 ^ d.places
  pub not_below : 2 * (d.coefficient * 100) ≤ 2 * (q.coefficient * 10 ^ d.places) + 10 ^ d.places

-- The text of an amount reads back as a number to the cent, at most half a cent away from it.
pub money_text-IsNear :
    (d : Decimal) → (q : Decimal) × (decimal_of_text (money_text d) ≡ some q) × IsNear d q
unfolding money_text
money_text-IsNear d =
    let (above, below) = quantized-near d.negative d.coefficient d.places in
    (
      quantized d,
      decimal_of_text-format_f (quantized d),
      record {
        to_cents = unfold quantized in refl;
        same_sign = unfold quantized in refl;
        not_above = above;
        not_below = below;
      },
    )
