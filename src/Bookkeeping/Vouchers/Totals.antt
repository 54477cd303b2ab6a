-- ===== src/Bookkeeping/Vouchers/Totals.antt =====
-- What the lines of a draft come to on each side, in cents.
use invoice_hub.Prelude.Int.{pos, ◌+ℤ◌, ℤ, int_laws}
use invoice_hub.Prelude.Text.{or_else, join_words, strip}
use invoice_hub.Bookkeeping.Result.{bad_amount, ok, or_raise, >>=-eq-ok, ok-injective}
use invoice_hub.Bookkeeping.Vouchers.Row.{as_decimal, money_text, quantized}
use invoice_hub.Bookkeeping.Decisions.Sums.{amount-format_f}
use invoice_hub.Bookkeeping.Decisions.Allocations.{amount}
use invoice_hub.Bookkeeping.Decisions.Balance.{
  Totals, Totals-nil, Totals-one_credit, Totals-one_debit, Totals-append,
}
use invoice_hub.Domain.{LineRole, VoucherSourceLine, credit, debit, VoucherLine}
use invoice_hub.Bookkeeping.Vouchers.Lines.{
  LineAccounts, is_zero_decimal, tax_part, voucher_line, voucher_lines_for_source,
}
use invoice_hub.Bookkeeping.Status.{Host}
use invoice_hub.Prelude.Dict.{Dict}
use invoice_hub.Bookkeeping.Money.{
  Decimal, cents, decimal_of_text, decimal_of_text-format_f, format_f, is_cents, signed,
}
use invoice_hub.Prelude.{
  Bool-cases, List, String, [], ap, inl, inr, refl, some, true, ◌∙◌, ◌∷◌, ◌≡◌, Bool, arith, false,
  ℕ, ◌*◌, ◌==◌, sym, subst,
}

-- An amount to the cent is quantized already.
quantized-quantized : (d : Decimal) → quantized (quantized d) ≡ quantized d
unfolding quantized
quantized-quantized d =
    ap (λ c. record { negative = d.negative; coefficient = c; places = 2 }) (omega arith)

quantized-is_cents : (d : Decimal) → is_cents (quantized d) ≡ true
unfolding quantized is_cents
quantized-is_cents d = refl

decimal_of_text-or_else :
    (s : String) {d : Decimal}
    → decimal_of_text s ≡ some d
    → decimal_of_text (or_else s "0") ≡ some d
unfolding decimal_of_text
decimal_of_text-or_else String.[] h = cc
decimal_of_text-or_else (String.◌∷◌ c s) h = h

-- A printed amount reads back to the cent.
pub as_decimal-money_text : (d : Decimal) → as_decimal (money_text d) ≡ ok (quantized d)
unfolding as_decimal money_text
as_decimal-money_text d =
    ap (λ o. or_raise o bad_amount)
      (decimal_of_text-or_else (format_f (quantized d)) (decimal_of_text-format_f (quantized d)))

pub amount-money_text : (d : Decimal) → amount (money_text d) ≡ ok (cents (quantized d))
unfolding money_text
amount-money_text d = amount-format_f (quantized d) (quantized-is_cents d)

eq_zero : (n : ℕ) → n == 0 ≡ true → n * 1 ≡ 0
eq_zero n h = ground arith

signed_zero : (b : Bool) (n : ℕ) → n == 0 ≡ true → signed b (n * 1) ≡ pos 0
unfolding signed
signed_zero false n h = ap pos (eq_zero n h)
signed_zero true n h = rw (eq_zero n h)

sums : (p t z : ℤ) → (p +ℤ (t +ℤ pos 0) ≡ p +ℤ t) × (pos 0 +ℤ (pos 0 +ℤ z) ≡ z)
sums p t z = (omega int_laws, omega int_laws)

sides_as :
    (ls : List VoucherLine) {d c d' c' : ℤ} → (d ≡ d') × (c ≡ c') → Totals ls d c → Totals ls d' c'
sides_as ls (e₁, e₂) (h₁, h₂) = (h₁ ∙ ap ok e₁, h₂ ∙ ap ok e₂)

-- A source line with the printed amounts of three decimals.
pub record IsPrinted (s : VoucherSourceLine) (p t z : Decimal) : Type 0 where
  pub pretax : s.pretax_amount ≡ money_text p
  pub tax : s.tax_amount ≡ money_text t
  pub total : s.total_amount ≡ money_text z

module _ (host : Host) (source : VoucherSourceLine) where
  line-Totals_debit :
      (role : LineRole) (summary c name : String) (number d : Decimal)
      → number ≡ quantized d
      → (aux : Dict String) (ids : List String)
      → Totals
          (voucher_line host source role summary c name debit number aux ids ∷ [])
          (cents (quantized d))
          (pos 0)
  line-Totals_debit role summary c name number d e aux ids = Totals-one_debit _ refl (
      ap (λ q. amount (money_text q)) e
      ∙ amount-money_text (quantized d)
      ∙ ap (λ q. ok (cents q)) (quantized-quantized d))

  line-Totals_credit :
      (role : LineRole) (summary c name : String) (number d : Decimal)
      → number ≡ quantized d
      → (aux : Dict String) (ids : List String)
      → Totals
          (voucher_line host source role summary c name credit number aux ids ∷ [])
          (pos 0)
          (cents (quantized d))
  line-Totals_credit role summary c name number d e aux ids = Totals-one_credit _ refl (
      ap (λ q. amount (money_text q)) e
      ∙ amount-money_text (quantized d)
      ∙ ap (λ q. ok (cents q)) (quantized-quantized d))

  cents_of_zero : (d : Decimal) → is_zero_decimal (quantized d) ≡ true → cents (quantized d) ≡ pos 0
  unfolding cents quantized
  cents_of_zero d h = signed_zero (quantized d).negative (quantized d).coefficient h

  tax_part-Totals :
      (summary : String) (a : LineAccounts) (d : Decimal)
      → Totals (tax_part host source summary a (quantized d)) (cents (quantized d)) (pos 0)
  unfolding tax_part
  tax_part-Totals summary a d = elim (Bool-cases (is_zero_decimal (quantized d))) [
    | inl e ↦ rw e (rw (cents_of_zero d e) Totals-nil)
    | inr e ↦ rw e (
        line-Totals_debit LineRole.input_tax summary a.tax_code a.tax_name (quantized d) d refl
          a.tax_aux [])
  ]

  -- The lines of a source line: what it costs with its tax on one side, its total on the other.
  pub voucher_lines_for_source-Totals :
      (ids summary_number : String) (a : LineAccounts) (p t z : Decimal) (lines : List VoucherLine)
      → IsPrinted source p t z
      → voucher_lines_for_source host source ids summary_number a ≡ ok lines
      → Totals lines (cents (quantized p) +ℤ cents (quantized t)) (cents (quantized z))
  unfolding voucher_lines_for_source
  voucher_lines_for_source-Totals ids number a p t z lines v h =
      let (x, hx, h₁) = >>=-eq-ok (as_decimal source.pretax_amount) _ h in
      let (y, hy, h₂) = >>=-eq-ok (as_decimal source.tax_amount) _ h₁ in
      let (w, hw, h₃) = >>=-eq-ok (as_decimal source.total_amount) _ h₂ in
      let ex : x ≡ quantized p =
        ok-injective (sym hx ∙ (ap as_decimal v.pretax ∙ as_decimal-money_text p)) in
      let ey : y ≡ quantized t =
        ok-injective (sym hy ∙ (ap as_decimal v.tax ∙ as_decimal-money_text t)) in
      let ew : w ≡ quantized z =
        ok-injective (sym hw ∙ (ap as_decimal v.total ∙ as_decimal-money_text z)) in
      let summary = strip (
        join_words ("采购" ∷ source.seller ∷ source.item_name ∷ source.project_name ∷ number ∷ [])) in
      let first =
        line-Totals_debit LineRole.cost summary a.debit_code a.debit_name x p ex a.cost_aux
          (ids ∷ []) in
      let last =
        line-Totals_credit LineRole.payable summary a.credit_code a.credit_name w z ew a.credit_aux
          [] in
      let taxes =
        subst (λ q. Totals (tax_part host source summary a q) (cents (quantized t)) (pos 0))
          (sym ey) (tax_part-Totals summary a t) in
      subst (λ ls. Totals ls (cents (quantized p) +ℤ cents (quantized t)) (cents (quantized z)))
        (ok-injective h₃)
        (sides_as _ (sums (cents (quantized p)) (cents (quantized t)) (cents (quantized z))) (
          Totals-append (_ ∷ []) _ first
            (Totals-append (tax_part host source summary a y) _ taxes last)))
