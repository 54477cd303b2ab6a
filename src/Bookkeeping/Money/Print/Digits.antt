-- ===== src/Bookkeeping/Money/Print/Digits.antt =====
-- `format(number, "f")`: the sign, the integer part, and as many decimals as the number has.
use Prim.Native.Char.{Char}
use mathlib.Core.Logic.{dite}
use mathlib.Core.WellFounded.{Acc}
use native.Mathlib.Decide.{dec_lt}
use invoice_hub.Prelude.{ℕ, zero, suc, ◌/◌, ◌%◌, ◌<◌, String, arith, ltb, ◌+◌, if◌then◌else◌}
use invoice_hub.Prelude.Int.{ℤ, pos_part, neg_part}
use invoice_hub.Prelude.Order.{lt_wf}
use invoice_hub.Bookkeeping.Money.Number.{Decimal}

-- The digit of a number below ten.
unfoldable pub digit_char : ℕ → Char
digit_char zero = "0"
digit_char (suc zero) = "1"
digit_char (suc (suc zero)) = "2"
digit_char (suc (suc (suc zero))) = "3"
digit_char (suc (suc (suc (suc zero)))) = "4"
digit_char (suc (suc (suc (suc (suc zero))))) = "5"
digit_char (suc (suc (suc (suc (suc (suc zero)))))) = "6"
digit_char (suc (suc (suc (suc (suc (suc (suc zero))))))) = "7"
digit_char (suc (suc (suc (suc (suc (suc (suc (suc zero)))))))) = "8"
digit_char (suc (suc (suc (suc (suc (suc (suc (suc (suc n))))))))) = "9"

pub tenth_lt : {n : ℕ} → 9 < n → n / 10 < n
tenth_lt h = omega arith

unfoldable pub put_digits : (n : ℕ) → Acc ◌<◌ n → String → String
put_digits n (Acc.intro _ smaller) out =
    dite (dec_lt 9 n)
      (λ h.
        put_digits (n / 10) (smaller (n / 10) (tenth_lt h)) (String.◌∷◌ (digit_char (n % 10)) out))
      (λ _. String.◌∷◌ (digit_char n) out)

-- The digits of `n` in front of `out`.
unfoldable pub put_integer : ℕ → String → String
unfolding put_digits lt_wf dec_lt
put_integer n out = put_digits n (lt_wf.apply n) out

-- The last `k` digits of `n` in front of `out`.
unfoldable pub put_fraction : ℕ → ℕ → String → String
put_fraction zero n out = out
put_fraction (suc k) n out = put_fraction k (n / 10) (String.◌∷◌ (digit_char (n % 10)) out)

-- `n` without its last `k` digits.
unfoldable pub drop_digits : ℕ → ℕ → ℕ
drop_digits zero n = n
drop_digits (suc k) n = drop_digits k (n / 10)

unfoldable pub put_unsigned : ℕ → ℕ → String
unfolding put_integer put_fraction drop_digits
put_unsigned n zero = put_integer n ""
put_unsigned n (suc k) =
    put_integer (drop_digits (suc k) n) (String.◌∷◌ "." (put_fraction (suc k) n ""))

unfoldable pub format_f : Decimal → String
unfolding put_unsigned
format_f d =
    let body = put_unsigned d.coefficient d.places in
    if d.negative then String.◌∷◌ "-" body else body

-- `format(total.quantize(Decimal("0.01")), "f")` of a number of cents.
unfoldable pub format_cents : ℤ → String
unfolding format_f
format_cents z =
    format_f
      (record { negative = ltb 0 (neg_part z); coefficient = pos_part z + neg_part z; places = 2 })
