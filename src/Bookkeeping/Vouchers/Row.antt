-- ===== src/Bookkeeping/Vouchers/Row.antt =====
-- Reading a row of the summary: `_clean`, `_money`, `money_text`, `_first_non_empty`, `_row_marker`.
use invoice_hub.Bookkeeping.Money.Print.Digits.{put_integer}
use invoice_hub.Prelude.Text.{is_empty_text, or_else, strip}
use invoice_hub.Bookkeeping.Money.Read.{is_digit}
use invoice_hub.Bookkeeping.Result.{Result, bad_amount, or_raise}
use invoice_hub.Prelude.Dict.{Dict, lookup}
use invoice_hub.Bookkeeping.Money.{Decimal, decimal_add, decimal_of_text, format_f, zero_decimal}
use invoice_hub.Prelude.{
  Bool, List, Option, String, [], false, if◌then◌else◌, leb, ltb, none, not, some, true, ℕ, ◌&&◌,
  ◌*◌, ◌+◌, ◌-◌, ◌/◌, ◌==◌, ◌^◌, ◌||◌, ◌∷◌,
}
use Prim.Native.Char.{Char, code}
use Prim.Native.String.{◌++◌ as append}

-- A row is a dictionary of texts, as `csv` reads it.
abbrev pub Row : Type 0
Row = Dict String

-- `row.get(field)`, where an absent field reads as an empty text
abbrev pub field_of : Row → String → String
field_of row field = elim (lookup field row) [ none ↦ "" | some value ↦ value ]

-- The two spaces that `_clean` replaces: U+00A0 and U+3000.
abbrev pub is_wide_space : Char → Bool
is_wide_space c = code c == 160 || code c == 12288

unfoldable pub narrow_spaces : String → String
narrow_spaces String.[] = String.[]
narrow_spaces (String.◌∷◌ c s) =
    let rest = narrow_spaces s in if is_wide_space c then String.◌∷◌ " " rest else String.◌∷◌ c rest

-- `_clean`
unfoldable pub clean : String → String
clean value = strip (narrow_spaces value)

-- `,`, U+FFE5 and U+00A5
abbrev pub is_money_mark : Char → Bool
is_money_mark c = code c == 44 || code c == 65509 || code c == 165

unfoldable pub drop_marks : String → String
drop_marks String.[] = String.[]
drop_marks (String.◌∷◌ c s) =
    let rest = drop_marks s in if is_money_mark c then rest else String.◌∷◌ c rest

-- The digits at the end of a plain number; `seen` says whether one came.
unfoldable pub plain_digits : Bool → String → Bool
plain_digits seen String.[] = seen
plain_digits seen (String.◌∷◌ c s) = let rest = plain_digits true s in is_digit (code c) && rest

-- `\d+(?:\.\d+)?|\.\d+`: `seen` says whether a digit came before the point.
unfoldable pub plain_number : Bool → String → Bool
plain_number seen String.[] = seen
plain_number seen (String.◌∷◌ c s) =
    let fraction = plain_digits false s in
    let rest = plain_number true s in if code c == 46 then fraction else is_digit (code c) && rest

-- `re.fullmatch(r"[+-]?(?:\d+(?:\.\d+)?|\.\d+)", text)`
unfoldable pub is_plain_money : String → Bool
is_plain_money String.[] = false
is_plain_money (String.◌∷◌ c s) =
    let unsigned = plain_number false s in
    let signed_text = plain_number false (String.◌∷◌ c s) in
    if code c == 43 || code c == 45 then unsigned else signed_text

abbrev pub nat_text : ℕ → String
nat_text n = put_integer n ""

-- `f"第 {row_index} 行{field}{what}"`
unfoldable pub row_reason : ℕ → String → String → String
row_reason index field what =
    append "第 " (append (nat_text index) (append " 行" (append field what)))

abbrev pub is_negative : Decimal → Bool
is_negative d = d.negative && not (d.coefficient == 0)

-- A number that was read, with the reason that a negative one gives.
unfoldable pub money_value : ℕ → String → String → Option Decimal → Decimal × List String
money_value index field value none =
    (zero_decimal, row_reason index field (append "不是合法金额: " value) ∷ [])
money_value index field value (some number) =
    (number, if is_negative number then row_reason index field (append "为负数: " value) ∷ [] else [])

-- `_money`: the number, and the reasons that it adds.
unfoldable pub row_money : Row → String → ℕ → Decimal × List String
row_money row field index =
    let value = field_of row field in
    let text = drop_marks (clean value) in
    if is_empty_text text
    then (zero_decimal, row_reason index field "缺失" ∷ [])
    else if is_plain_money text
    then money_value index field value (decimal_of_text text)
    else (zero_decimal, row_reason index field (append "不是合法金额: " value) ∷ [])

-- `value.quantize(Decimal("0.01"), rounding=ROUND_HALF_UP)`
unfoldable pub quantized : Decimal → Decimal
quantized d = record {
  negative = d.negative;
  coefficient =
      if leb d.places 2
      then d.coefficient * 10 ^ (2 - d.places)
      else (2 * d.coefficient + 10 ^ (d.places - 2)) / (2 * 10 ^ (d.places - 2));
  places = 2;
}

-- `money_text`
unfoldable pub money_text : Decimal → String
money_text d = format_f (quantized d)

-- `_as_decimal`
unfoldable pub as_decimal : String → Result Decimal
as_decimal value = or_raise (decimal_of_text (or_else value "0")) bad_amount

unfoldable pub decimal_negate : Decimal → Decimal
decimal_negate d = record d { negative = not d.negative }

-- `abs((a + b) - c)`
unfoldable pub difference : Decimal → Decimal → Decimal → Decimal
difference a b c = record (decimal_add (decimal_add a b) (decimal_negate c)) { negative = false }

-- `d > TAIL_DIFF_LIMIT` for a number that is not negative
unfoldable pub exceeds_tail : Decimal → Bool
exceeds_tail d = ltb (10 ^ d.places) (d.coefficient * 100)

-- `_first_non_empty`
unfoldable pub first_non_empty : List String → String
first_non_empty [] = ""
first_non_empty (v ∷ vs) =
    let rest = first_non_empty vs in if is_empty_text (clean v) then rest else clean v

unfoldable pub marker_parts : Row → List String → String
marker_parts row [] = ""
marker_parts row (field ∷ names) =
    let rest = marker_parts row names in
    let value = clean (field_of row field) in
    if is_empty_text value
    then rest
    else append " | " (append field (append ":" (append value rest)))

-- `_row_marker`
unfoldable pub row_marker : ℕ → Row → String
row_marker index row =
    append "row:"
      (append (nat_text index) (marker_parts row ("发票号码" ∷ "销售方" ∷ "内部项目名称" ∷ "规格型号" ∷ "源文件" ∷ [])))
