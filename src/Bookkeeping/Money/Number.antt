-- ===== src/Bookkeeping/Money/Number.antt =====
-- Finite decimal numbers. A NaN or an infinity is refused wherever one is read, so none is a value
-- here. Sums are exact, as Python's are up to the 28 digits of the default context.
use invoice_hub.Prelude.{
  ℕ, zero, suc, ◌+◌, ◌-◌, ◌*◌, ◌/◌, ◌%◌, ◌^◌, Bool, true, false, leb, ltb, ◌==◌, max, if◌then◌else◌,
  ◌||◌,
}
use invoice_hub.Prelude.Int.{ℤ, pos, negsuc, ◌+ℤ◌, pos_part, neg_part, eqb_ℤ}

-- (-1)^negative * coefficient / 10^places
pub record Decimal : Type 0 where
  pub negative : Bool
  pub coefficient : ℕ
  pub places : ℕ

-- A sign and a magnitude, as an integer.
unfoldable pub signed : Bool → ℕ → ℤ
signed false n = pos n
signed true zero = pos 0
signed true (suc n) = negsuc n

-- `number == number.quantize(Decimal("0.01"))`
unfoldable pub is_cents : Decimal → Bool
is_cents d = leb d.places 2 || (d.coefficient % 10 ^ (d.places - 2)) == 0

-- The number of cents of a decimal that is precise to cents.
unfoldable pub cents : Decimal → ℤ
unfolding signed
cents d = signed d.negative (
    if leb d.places 2
    then d.coefficient * 10 ^ (2 - d.places)
    else d.coefficient / 10 ^ (d.places - 2))

-- The coefficient at `places` decimals, which are at least those of `d`.
unfoldable pub scaled : ℕ → Decimal → ℤ
unfolding signed
scaled places d = signed d.negative (d.coefficient * 10 ^ (places - d.places))

-- `a == b`
unfoldable pub decimal_eq : Decimal → Decimal → Bool
unfolding scaled
decimal_eq a b = let places = max a.places b.places in eqb_ℤ (scaled places a) (scaled places b)

-- `a + b`
unfoldable pub decimal_add : Decimal → Decimal → Decimal
unfolding scaled ◌+ℤ◌
decimal_add a b =
    let places = max a.places b.places in
    let total = scaled places a +ℤ scaled places b in
    record {
      negative = ltb 0 (neg_part total);
      coefficient = pos_part total + neg_part total;
      places = places;
    }

abbrev pub zero_decimal : Decimal
zero_decimal = record { negative = false; coefficient = 0; places = 0 }
