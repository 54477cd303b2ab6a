-- ===== src/Bookkeeping/Money/Print/Scan.antt =====
-- `Decimal` reads printed digits: `read_integer` and `read_fraction` on what `put_unsigned` prints.
use Prim.Native.Char.{code}
use mathlib.Core.Logic.{ite, dite, if_pos, if_neg}
use mathlib.Core.WellFounded
use mathlib.Core.WellFounded.{Acc, Acc-prop}
use native.Mathlib.Decide.{dec_lt}
use mathlib.Core.Logic.{if_pos, if_neg}
use mathlib.Core.Path.{ap₂}
use invoice_hub.Prelude.{
  ℕ, zero, suc, ◌+◌, ◌*◌, ◌/◌, ◌%◌, ◌<◌, String, Bool, true, false, some, ◌≡◌, refl, arith, ap, ◌∙◌,
}
use invoice_hub.Prelude.Order.{lt_wf}
use invoice_hub.Bookkeeping.Money.Read.{read_fraction, read_integer}
use invoice_hub.Bookkeeping.Money.Print.Digits.{
  digit_char, tenth_lt, put_digits, put_integer, put_fraction, drop_digits, put_unsigned,
}

pub code-digit_char : (d : ℕ) → d < 10 → code (digit_char d) ≡ b'0' + d
unfolding digit_char
code-digit_char zero h = refl
code-digit_char (suc zero) h = refl
code-digit_char (suc (suc zero)) h = refl
code-digit_char (suc (suc (suc zero))) h = refl
code-digit_char (suc (suc (suc (suc zero)))) h = refl
code-digit_char (suc (suc (suc (suc (suc zero))))) h = refl
code-digit_char (suc (suc (suc (suc (suc (suc zero)))))) h = refl
code-digit_char (suc (suc (suc (suc (suc (suc (suc zero))))))) h = refl
code-digit_char (suc (suc (suc (suc (suc (suc (suc (suc zero)))))))) h = refl
code-digit_char (suc (suc (suc (suc (suc (suc (suc (suc (suc zero))))))))) h = refl
code-digit_char (suc (suc (suc (suc (suc (suc (suc (suc (suc (suc n)))))))))) h =
    absurd (omega arith)

read_fraction_digit :
    (neg : Bool) (n k : ℕ) (seen : Bool) (d : ℕ) (s : String)
    → d < 10
    → read_fraction neg n k seen (String.◌∷◌ (digit_char d) s)
      ≡ read_fraction neg (n * 10 + d) (k + 1) true s
unfolding read_fraction
read_fraction_digit neg n k seen d s h = ground (arith, code-digit_char d h)

read_integer_digit :
    (neg : Bool) (n : ℕ) (seen : Bool) (d : ℕ) (s : String)
    → d < 10
    → read_integer neg n seen (String.◌∷◌ (digit_char d) s) ≡ read_integer neg (n * 10 + d) true s
unfolding read_integer
read_integer_digit neg n seen d s h = ground (arith, code-digit_char d h)

-- Reading the last `k` digits goes from the number without them to the number.
read-put_fraction :
    (neg : Bool) (k n j : ℕ) (out : String)
    → read_fraction neg (drop_digits k n) j true (put_fraction k n out)
      ≡ read_fraction neg n (j + k) true out
unfolding put_fraction drop_digits
read-put_fraction neg zero n j out = ap (λ p. read_fraction neg n p true out) (omega arith)
read-put_fraction neg (suc k) n j out =
    read-put_fraction neg k (n / 10) j (String.◌∷◌ (digit_char (n % 10)) out)
    ∙ read_fraction_digit neg (n / 10) (j + k) true (n % 10) out (omega arith)
    ∙ ap₂ (λ m p. read_fraction neg m p true out) (omega arith) (omega arith)

put_digits_step :
    (n : ℕ) (w : Acc ◌<◌ n) (w' : Acc ◌<◌ (n / 10)) (out : String)
    → put_digits n w out
      ≡ ite
          (dec_lt 9 n)
          (put_digits (n / 10) w' (String.◌∷◌ (digit_char (n % 10)) out))
          (String.◌∷◌ (digit_char n) out)
unfolding put_digits
put_digits_step n (Acc.intro _ smaller) w' out = λ i.
    dite (dec_lt 9 n)
      (λ h.
        put_digits (n / 10) (Acc-prop (smaller (n / 10) (tenth_lt h)) w' i)
          (String.◌∷◌ (digit_char (n % 10)) out))
      (λ _. String.◌∷◌ (digit_char n) out)

put_integer_step :
    (n : ℕ) (out : String)
    → put_integer n out
      ≡ ite
          (dec_lt 9 n)
          (put_integer (n / 10) (String.◌∷◌ (digit_char (n % 10)) out))
          (String.◌∷◌ (digit_char n) out)
unfolding put_integer
put_integer_step n out = put_digits_step n (lt_wf.apply n) (lt_wf.apply (n / 10)) out

pub put_integer_more :
    (n : ℕ) (out : String)
    → 9 < n
    → put_integer n out ≡ put_integer (n / 10) (String.◌∷◌ (digit_char (n % 10)) out)
put_integer_more n out h =
    put_integer_step n out
    ∙ if_pos (dec_lt 9 n) h (put_integer (n / 10) (String.◌∷◌ (digit_char (n % 10)) out))
        (String.◌∷◌ (digit_char n) out)

pub put_integer_last :
    (n : ℕ) (out : String) → ¬ (9 < n) → put_integer n out ≡ String.◌∷◌ (digit_char n) out
put_integer_last n out h =
    put_integer_step n out
    ∙ if_neg (dec_lt 9 n) h (put_integer (n / 10) (String.◌∷◌ (digit_char (n % 10)) out))
        (String.◌∷◌ (digit_char n) out)

read-put_integer :
    (neg : Bool) (n : ℕ) (out : String)
    → read_integer neg 0 false (put_integer n out) ≡ read_integer neg n true out
read-put_integer neg n =
    WellFounded.induction lt_wf
      {C = λ m.
        (out : String) → read_integer neg 0 false (put_integer m out) ≡ read_integer neg m true out}
      n
      λ m ih out. elim (dec_lt 9 m) [
        | yes h ↦
            ap (read_integer neg 0 false) (put_integer_more m out h)
            ∙ ih (m / 10) (omega arith) (String.◌∷◌ (digit_char (m % 10)) out)
            ∙ read_integer_digit neg (m / 10) true (m % 10) out (omega arith)
            ∙ ap (λ k. read_integer neg k true out) (omega arith)
        | no h ↦
            ap (read_integer neg 0 false) (put_integer_last m out h)
            ∙ read_integer_digit neg 0 false m out (omega arith)
            ∙ ap (λ k. read_integer neg k true out) (omega arith)
      ]

pub read-put_unsigned :
    (neg : Bool) (n k : ℕ)
    → read_integer neg 0 false (put_unsigned n k)
      ≡ some (record { negative = neg; coefficient = n; places = k })
unfolding put_unsigned read_integer
read-put_unsigned neg n zero = read-put_integer neg n ""
read-put_unsigned neg n (suc k) =
    read-put_integer neg (drop_digits (suc k) n) (String.◌∷◌ "." (put_fraction (suc k) n ""))
    ∙ read-put_fraction neg (suc k) n 0 ""
    ∙ ap (λ p. some (record { negative = neg; coefficient = n; places = p })) (omega arith)
