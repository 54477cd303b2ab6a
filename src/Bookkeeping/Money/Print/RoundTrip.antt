-- ===== src/Bookkeeping/Money/Print/RoundTrip.antt =====
-- `Decimal(format(number, "f"))` is the number, with its sign and its places.
use Prim.Native.Char.{Char, code}
use mathlib.Core.WellFounded
use mathlib.Core.WellFounded.{Acc, Acc-prop}
use native.Mathlib.Decide.{dec_lt}
use invoice_hub.Prelude.{
  ℕ, zero, suc, ◌/◌, ◌%◌, ◌<◌, String, Bool, true, false, some, ◌≡◌, refl, arith, ◌==◌, ap, ◌∙◌,
  subst, sym,
}
use invoice_hub.Prelude.Text.{is_space, lstrip, rstrip, rstrip_cons, strip}
use invoice_hub.Prelude.Order.{lt_wf}
use invoice_hub.Bookkeeping.Money.Number.{Decimal}
use invoice_hub.Bookkeeping.Money.Read.{
  drop_underscores, read_integer, read_signed, decimal_of_text,
}
use invoice_hub.Bookkeeping.Money.Print.Scan.{
  code-digit_char, put_integer_more, put_integer_last, read-put_unsigned,
}
use invoice_hub.Bookkeeping.Money.Print.Digits.{
  digit_char, put_integer, put_fraction, drop_digits, put_unsigned, format_f,
}

-- Neither white space nor an underscore: `Decimal` keeps such a character.
abbrev IsPlain : Char → Type 0
IsPlain c = (is_space c ≡ false) × ((code c == b'_') ≡ false)

abbrev AllPlain : String → Type 0
AllPlain String.[] = Unit
AllPlain (String.◌∷◌ c s) = IsPlain c × AllPlain s

digit_char-IsPlain : (d : ℕ) → d < 10 → IsPlain (digit_char d)
unfolding digit_char
digit_char-IsPlain zero h = (refl, refl)
digit_char-IsPlain (suc zero) h = (refl, refl)
digit_char-IsPlain (suc (suc zero)) h = (refl, refl)
digit_char-IsPlain (suc (suc (suc zero))) h = (refl, refl)
digit_char-IsPlain (suc (suc (suc (suc zero)))) h = (refl, refl)
digit_char-IsPlain (suc (suc (suc (suc (suc zero))))) h = (refl, refl)
digit_char-IsPlain (suc (suc (suc (suc (suc (suc zero)))))) h = (refl, refl)
digit_char-IsPlain (suc (suc (suc (suc (suc (suc (suc zero))))))) h = (refl, refl)
digit_char-IsPlain (suc (suc (suc (suc (suc (suc (suc (suc zero)))))))) h = (refl, refl)
digit_char-IsPlain (suc (suc (suc (suc (suc (suc (suc (suc (suc zero))))))))) h = (refl, refl)
digit_char-IsPlain (suc (suc (suc (suc (suc (suc (suc (suc (suc (suc n)))))))))) h =
    absurd (omega arith)

put_fraction-AllPlain : (k n : ℕ) (out : String) → AllPlain out → AllPlain (put_fraction k n out)
unfolding put_fraction
put_fraction-AllPlain zero n out h = h
put_fraction-AllPlain (suc k) n out h =
    put_fraction-AllPlain k (n / 10) (String.◌∷◌ (digit_char (n % 10)) out)
      (digit_char-IsPlain (n % 10) (omega arith), h)

-- The integer part begins with a digit, and keeps a plain text plain.
StartsPlain : String → Type 0
StartsPlain s = (d : ℕ) × (t : String) × (d < 10) × AllPlain s × (s ≡ String.◌∷◌ (digit_char d) t)

put_integer-StartsPlain : (n : ℕ) (out : String) → AllPlain out → StartsPlain (put_integer n out)
unfolding StartsPlain
put_integer-StartsPlain n =
    WellFounded.induction lt_wf
      {C = λ m. (out : String) → AllPlain out → StartsPlain (put_integer m out)} n
      λ m ih out h. elim (dec_lt 9 m) [
        | yes big ↦ subst StartsPlain (sym (put_integer_more m out big)) (
            ih (m / 10) (omega arith) (String.◌∷◌ (digit_char (m % 10)) out)
              (digit_char-IsPlain (m % 10) (omega arith), h))
        | no small ↦
            subst StartsPlain (sym (put_integer_last m out small))
              (m, out, omega arith, (digit_char-IsPlain m (omega arith), h), refl)
      ]

put_unsigned-StartsPlain : (n k : ℕ) → StartsPlain (put_unsigned n k)
unfolding put_unsigned
put_unsigned-StartsPlain n zero = put_integer-StartsPlain n "" tt
put_unsigned-StartsPlain n (suc k) =
    put_integer-StartsPlain (drop_digits (suc k) n) (String.◌∷◌ "." (put_fraction (suc k) n ""))
      ((refl, refl), put_fraction-AllPlain (suc k) n "" tt)

rstrip-AllPlain : (s : String) → AllPlain s → rstrip s ≡ s
unfolding rstrip
rstrip-AllPlain String.[] h = refl
rstrip-AllPlain (String.◌∷◌ c String.[]) h = rw (h.0.0, rstrip_cons)
rstrip-AllPlain (String.◌∷◌ c (String.◌∷◌ d s)) h =
    ap (rstrip_cons c) (rstrip-AllPlain (String.◌∷◌ d s) h.1)

lstrip-AllPlain : (s : String) → AllPlain s → lstrip s ≡ s
unfolding lstrip
lstrip-AllPlain String.[] h = refl
lstrip-AllPlain (String.◌∷◌ c s) h = rw h.0.0

drop_underscores-AllPlain : (s : String) → AllPlain s → drop_underscores s ≡ s
unfolding drop_underscores
drop_underscores-AllPlain String.[] h = refl
drop_underscores-AllPlain (String.◌∷◌ c s) h =
    rw h.0.1 (ap (String.◌∷◌ c) (drop_underscores-AllPlain s h.1))

decimal_of_text-AllPlain : (s : String) → AllPlain s → decimal_of_text s ≡ read_signed s
unfolding decimal_of_text strip
decimal_of_text-AllPlain s h =
    ap (λ t. read_signed (drop_underscores (lstrip t))) (rstrip-AllPlain s h)
    ∙ ap (λ t. read_signed (drop_underscores t)) (lstrip-AllPlain s h)
    ∙ ap read_signed (drop_underscores-AllPlain s h)

read_signed_digit :
    (d : ℕ) (t : String)
    → d < 10
    → read_signed (String.◌∷◌ (digit_char d) t)
      ≡ read_integer false 0 false (String.◌∷◌ (digit_char d) t)
unfolding read_signed
read_signed_digit d t h = ground (arith, code-digit_char d h)

read-StartsPlain : (s : String) → StartsPlain s → read_signed s ≡ read_integer false 0 false s
unfolding StartsPlain
read-StartsPlain s (d, t, h, _, e) = rw e (read_signed_digit d t h)

plain-StartsPlain : (s : String) → StartsPlain s → AllPlain s
unfolding StartsPlain
plain-StartsPlain s h = h.3

format_f-read :
    (neg : Bool) (n k : ℕ)
    → decimal_of_text (format_f (record { negative = neg; coefficient = n; places = k }))
      ≡ some (record { negative = neg; coefficient = n; places = k })
unfolding format_f read_signed
format_f-read true n k =
    decimal_of_text-AllPlain (String.◌∷◌ "-" (put_unsigned n k))
      ((refl, refl), plain-StartsPlain _ (put_unsigned-StartsPlain n k))
    ∙ read-put_unsigned true n k
format_f-read false n k =
    decimal_of_text-AllPlain (put_unsigned n k) (plain-StartsPlain _ (put_unsigned-StartsPlain n k))
    ∙ read-StartsPlain (put_unsigned n k) (put_unsigned-StartsPlain n k)
    ∙ read-put_unsigned false n k

-- What `format(number, "f")` prints, `Decimal` reads back as the same number: sign, coefficient and
-- places.
pub decimal_of_text-format_f : (d : Decimal) → decimal_of_text (format_f d) ≡ some d
decimal_of_text-format_f d = format_f-read d.negative d.coefficient d.places
