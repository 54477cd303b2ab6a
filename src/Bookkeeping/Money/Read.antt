-- ===== src/Bookkeeping/Money/Read.antt =====
-- `Decimal(text)` and `_money` of src/invoice_hub/bookkeeping/decisions.py.
-- ASCII digits only; a text that is no finite number reads as `none`. A positive exponent is written
-- out as zeros, so `1E+2` reads as 100.
use Prim.Native.Char.{code}
use invoice_hub.Prelude.{
  ℕ, ◌+◌, ◌-◌, ◌*◌, ◌^◌, String, Bool, true, false, ◌&&◌, ◌||◌, not, Option, none, some, leb, ◌==◌,
  if◌then◌else◌,
}
use invoice_hub.Prelude.Text.{strip}
use invoice_hub.Bookkeeping.Result.{Result, bad_amount, raise_if, or_raise, ok, ◌>>=◌, ◌>>◌}
use invoice_hub.Bookkeeping.Money.Number.{Decimal, is_cents}

abbrev pub is_digit : ℕ → Bool
is_digit c = leb b'0' c && leb c b'9'

-- `text.replace("_", "")`
unfoldable pub drop_underscores : String → String
drop_underscores String.[] = String.[]
drop_underscores (String.◌∷◌ c s) =
    let rest = drop_underscores s in if code c == b'_' then rest else String.◌∷◌ c rest

-- A number with `k` decimals, times 10^e or divided by it.
abbrev pub shifted : Bool → ℕ → ℕ → Bool → ℕ → Decimal
shifted negative n k down e =
    if down
    then record { negative = negative; coefficient = n; places = k + e }
    else if leb e k
    then record { negative = negative; coefficient = n; places = k - e }
    else record { negative = negative; coefficient = n * 10 ^ (e - k); places = 0 }

-- The digits of the exponent, after its sign.
unfoldable pub read_exponent : Bool → ℕ → ℕ → Bool → Bool → ℕ → String → Option Decimal
read_exponent negative n k down seen e String.[] =
    if seen then some (shifted negative n k down e) else none
read_exponent negative n k down seen e (String.◌∷◌ ch s) =
    let c = code ch in
    let rest = read_exponent negative n k down true (e * 10 + (c - b'0')) s in
    if is_digit c then rest else none

-- What follows an `e`.
unfoldable pub read_power : Bool → ℕ → ℕ → String → Option Decimal
unfolding read_exponent
read_power negative n k String.[] = none
read_power negative n k (String.◌∷◌ ch s) =
    let c = code ch in
    if c == b'-'
    then read_exponent negative n k true false 0 s
    else if c == b'+'
    then read_exponent negative n k false false 0 s
    else read_exponent negative n k false false 0 (String.◌∷◌ ch s)

abbrev pub is_e : ℕ → Bool
is_e c = c == b'e' || c == b'E'

-- The digits after the point: `n` is the coefficient so far, `k` the decimals, `seen` whether a
-- digit came.
unfoldable pub read_fraction : Bool → ℕ → ℕ → Bool → String → Option Decimal
unfolding read_power
read_fraction negative n k seen String.[] =
    if seen then some (record { negative = negative; coefficient = n; places = k }) else none
read_fraction negative n k seen (String.◌∷◌ ch s) =
    let c = code ch in
    let rest = read_fraction negative (n * 10 + (c - b'0')) (k + 1) true s in
    if is_digit c then rest else if is_e c && seen then read_power negative n k s else none

-- The digits before the point.
unfoldable pub read_integer : Bool → ℕ → Bool → String → Option Decimal
unfolding read_fraction
read_integer negative n seen String.[] =
    if seen then some (record { negative = negative; coefficient = n; places = 0 }) else none
read_integer negative n seen (String.◌∷◌ ch s) =
    let c = code ch in
    let rest = read_integer negative (n * 10 + (c - b'0')) true s in
    if is_digit c
    then rest
    else if c == b'.'
    then read_fraction negative n 0 seen s
    else if is_e c && seen
    then read_power negative n 0 s
    else none

unfoldable pub read_signed : String → Option Decimal
unfolding read_integer
read_signed String.[] = none
read_signed (String.◌∷◌ ch s) =
    let c = code ch in
    if c == b'-'
    then read_integer true 0 false s
    else if c == b'+'
    then read_integer false 0 false s
    else read_integer false 0 false (String.◌∷◌ ch s)

-- `Decimal(text)`, where that is finite.
unfoldable pub decimal_of_text : String → Option Decimal
unfolding read_signed drop_underscores strip
decimal_of_text text = read_signed (drop_underscores (strip text))

-- `_money(value, field)`
unfoldable pub money : String → Result Decimal
unfolding decimal_of_text is_cents
money value = do
  number ← or_raise (decimal_of_text value) bad_amount
  raise_if (not (is_cents number)) bad_amount
  ok number
