-- ===== src/Bookkeeping/Vouchers/Balanced.antt =====
-- The two sides of a draft in cents, and its totals as decimals.
use invoice_hub.Bookkeeping.Decisions.Allocations.{amount}
use invoice_hub.Bookkeeping.Decisions.Sums.{ok_parts}
use invoice_hub.Bookkeeping.Decisions.{direction_total}
use invoice_hub.Bookkeeping.Decisions.Lines.{direction_eq}
use invoice_hub.Domain.{Direction, VoucherLine}
use invoice_hub.Bookkeeping.Vouchers.Lines.{voucher_lines_for_source}
use invoice_hub.Bookkeeping.Money.Number.{scaled}
use invoice_hub.Bookkeeping.Mapping.Resolve.{resolve_account_mapping}
use invoice_hub.Prelude.Int.{eqb_ℤ→eq, neg_part, negsuc, pos, pos_part, ℤ, ◌+ℤ◌, int_laws, parts_eq}
use invoice_hub.Bookkeeping.Vouchers.Draft.{all_lines, side_total}
use invoice_hub.Bookkeeping.Decisions.Balance.{Totals, Totals-append, Totals-nil}
use invoice_hub.Bookkeeping.Vouchers.Row.{Row, quantized, money_text, as_decimal}
use invoice_hub.Bookkeeping.Vouchers.Totals.{
  IsPrinted, voucher_lines_for_source-Totals, amount-money_text, as_decimal-money_text,
}
use invoice_hub.Bookkeeping.Vouchers.Facts.{
  GroupFacts, RowAmounts, RowFacts, VoucherHost, all_facts, row_amounts, row_facts, source_line_of,
}
use invoice_hub.Bookkeeping.Money.{Decimal, cents, decimal_add, decimal_eq, signed, zero_decimal}
use invoice_hub.Prelude.{
  Bool, List, [], ap, arith, ltb, refl, subst, true, ℕ, ◌*◌, ◌+◌, ◌∷◌, ◌≡◌, All, Bool-cases, inl,
  inr, suc, sym, ◌++◌, ◌∙◌,
}
use invoice_hub.Bookkeeping.Result.{>>=-eq-ok, ok, ok-injective, ◌>>=◌}

-- The amounts of the rows to the cent, added up for each side.
unfoldable pub debit_cents : List (ℕ × Row) → ℤ
debit_cents [] = pos 0
debit_cents ((index, row) ∷ rows) =
    let amounts = row_amounts row index in
    cents (quantized amounts.amount) +ℤ cents (quantized amounts.tax_amount) +ℤ debit_cents rows

unfoldable pub credit_cents : List (ℕ × Row) → ℤ
credit_cents [] = pos 0
credit_cents ((index, row) ∷ rows) =
    cents (quantized (row_amounts row index).total) +ℤ credit_cents rows

source_line_of-IsPrinted :
    (host : VoucherHost) (group : GroupFacts) (index : ℕ) (row : Row) (amounts : RowAmounts)
    → IsPrinted
        (source_line_of host group index row amounts)
        amounts.amount
        amounts.tax_amount
        amounts.total
unfolding source_line_of
source_line_of-IsPrinted host group index row amounts = record {
  pretax = refl;
  tax = refl;
  total = refl;
}

row_facts-Totals :
    (host : VoucherHost) (group : GroupFacts) (index : ℕ) (row : Row) (f : RowFacts)
    → row_facts host group index row ≡ ok f
    → Totals f.lines
        (cents (quantized (row_amounts row index).amount)
          +ℤ cents (quantized (row_amounts row index).tax_amount))
        (cents (quantized (row_amounts row index).total))
unfolding row_facts
row_facts-Totals host group index row f h =
    let amounts = row_amounts row index in
    let source = source_line_of host group index row amounts in
    let (_, _, h₁) = >>=-eq-ok (resolve_account_mapping host.mapping group.rules _ _) _ h in
    let (lines, hl, h₂) = >>=-eq-ok (voucher_lines_for_source host.base source _ _ _) _ h₁ in
    subst
      (λ ls.
        Totals ls (cents (quantized amounts.amount) +ℤ cents (quantized amounts.tax_amount))
          (cents (quantized amounts.total)))
      (ap (λ r. r.lines) (ok-injective h₂))
      (voucher_lines_for_source-Totals host.base source _ _ _ amounts.amount amounts.tax_amount
        amounts.total lines (source_line_of-IsPrinted host group index row amounts) hl)

pub all_facts-Totals :
    (host : VoucherHost) (group : GroupFacts) (rows : List (ℕ × Row)) (fs : List RowFacts)
    → all_facts host group rows ≡ ok fs
    → Totals (all_lines fs) (debit_cents rows) (credit_cents rows)
unfolding all_facts all_lines debit_cents credit_cents
all_facts-Totals host group [] fs h =
    subst (λ gs. Totals (all_lines gs) (pos 0) (pos 0)) (ok-injective h) Totals-nil
all_facts-Totals host group ((index, row) ∷ rows) fs h =
    let (f, hf, h₁) = >>=-eq-ok (row_facts host group index row) _ h in
    let (rest, hr, h₂) = >>=-eq-ok (all_facts host group rows) _ h₁ in
    subst
      (λ gs.
        Totals (all_lines gs) (debit_cents ((index, row) ∷ rows))
          (credit_cents ((index, row) ∷ rows)))
      (ok-injective h₂)
      (Totals-append f.lines (all_lines rest) (row_facts-Totals host group index row f hf)
        (all_facts-Totals host group rows rest hr))

abbrev pub at_two : Bool → ℕ → Decimal
at_two b n = record { negative = b; coefficient = n; places = 2 }

-- A running total of amounts to the cent.
pub data IsCentSum : Decimal → Type 0 where
  at_start : IsCentSum zero_decimal
  at_cents : (b : Bool) (n : ℕ) → IsCentSum (at_two b n)

positive : (n : ℕ) → ltb 0 (suc n) ≡ true
positive n = ground arith

times_one : (n : ℕ) → (0 + suc n) * 1 ≡ suc n
times_one n = omega arith

-- A sign and a magnitude that come from an integer give it back.
signed_parts : (z : ℤ) → signed (ltb 0 (neg_part z)) ((pos_part z + neg_part z) * 1) ≡ z
unfolding signed
signed_parts (pos n) = ap pos (omega arith)
signed_parts (negsuc n) = rw (positive n) (rw (times_one n))

add_cents :
    (a : Decimal) (b : Bool) (n : ℕ)
    → IsCentSum a
    → IsCentSum (decimal_add a (at_two b n))
      × (cents (decimal_add a (at_two b n)) ≡ cents a +ℤ cents (at_two b n))
unfolding decimal_add cents scaled
add_cents a b n at_start = (at_cents _ _, signed_parts _)
add_cents a b n (at_cents c m) = (at_cents _ _, signed_parts _)

pub sums_eq :
    (a b : Decimal) → IsCentSum a → IsCentSum b → decimal_eq a b ≡ true → cents a ≡ cents b
unfolding decimal_eq cents scaled
sums_eq a b at_start at_start h = refl
sums_eq a b at_start (at_cents c m) h = eqb_ℤ→eq _ _ h
sums_eq a b (at_cents c m) at_start h = eqb_ℤ→eq _ _ h
sums_eq a b (at_cents c m) (at_cents e k) h = eqb_ℤ→eq _ _ h

-- Lines whose amounts are printed to the cent.
abbrev pub AllPrinted : List VoucherLine → Type 0
AllPrinted lines = All (λ l. (d : Decimal) × (l.amount ≡ money_text d)) lines

pub AllPrinted-append :
    (xs ys : List VoucherLine) → AllPrinted xs → AllPrinted ys → AllPrinted (xs ++ ys)
AllPrinted-append [] ys h k = k
AllPrinted-append (x ∷ xs) ys (p, ps) k = (p, AllPrinted-append xs ys ps k)

add_quantized :
    (a n : Decimal)
    → IsCentSum a
    → IsCentSum (decimal_add a (quantized n))
      × (cents (decimal_add a (quantized n)) ≡ cents a +ℤ cents (quantized n))
unfolding quantized
add_quantized a n c = add_cents a _ _ c

-- A line of the side, whose amount is added.
counted :
    (side : Direction) (t : Decimal) (l : VoucherLine) (ls : List VoucherLine) (d n : Decimal)
    {z : ℤ}
    → l.amount ≡ money_text n
    → IsCentSum t
    → ((y : ℤ)
        → IsCentSum (decimal_add t (quantized n))
        → side_total side (decimal_add t (quantized n)) ls ≡ ok d
        → direction_total side ls ≡ ok y
        → IsCentSum d × (cents d ≡ cents (decimal_add t (quantized n)) +ℤ y))
    → (as_decimal l.amount >>= (λ q. side_total side (decimal_add t q) ls)) ≡ ok d
    → (do first ← amount l.amount; total ← direction_total side ls; ok (first +ℤ total)) ≡ ok z
    → IsCentSum d × (cents d ≡ cents t +ℤ z)
counted side t l ls d n {z} en c later h k =
    let (q, hq, h₁) = >>=-eq-ok (as_decimal l.amount) _ h in
    let (a, ha, k₁) = >>=-eq-ok (amount l.amount) _ k in
    let (y, hy, k₂) = >>=-eq-ok (direction_total side ls) _ k₁ in
    let eq : q ≡ quantized n =
      ok-injective (sym hq ∙ (ap as_decimal en ∙ as_decimal-money_text n)) in
    let ea : a ≡ cents (quantized n) =
      ok-injective (sym ha ∙ (ap amount en ∙ amount-money_text n)) in
    let (c₁, e₁) = add_quantized t n c in
    let (c₂, e₂) = later y c₁ (subst (λ q. side_total side (decimal_add t q) ls ≡ ok d) eq h₁) hy in
    (c₂, omega (int_laws, parts_eq e₂, parts_eq e₁, parts_eq ea, ok_parts k₂))

-- The decimal total of a side is its total in cents.
pub side_total-cents :
    (side : Direction) (t : Decimal) (lines : List VoucherLine) (d : Decimal) {z : ℤ}
    → AllPrinted lines
    → IsCentSum t
    → side_total side t lines ≡ ok d
    → direction_total side lines ≡ ok z
    → IsCentSum d × (cents d ≡ cents t +ℤ z)
unfolding side_total direction_total
side_total-cents side t [] d {z} p c h k = (
  subst IsCentSum (ok-injective h) c,
  sym (ap cents (ok-injective h)) ∙ omega (int_laws, ok_parts k),
)
side_total-cents side t (l ∷ ls) d {z} ((n, en), ps) c h k =
    elim (Bool-cases (direction_eq l.direction side)) [
      | inl e ↦
          counted side t l ls d n en c
            (λ y. side_total-cents side (decimal_add t (quantized n)) ls d {z = y} ps) (rw e at h)
            (rw e at k)
      | inr e ↦ side_total-cents side t ls d ps c (rw e at h) (rw e at k)
    ]
