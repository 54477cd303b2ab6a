-- ===== src/Bookkeeping/Vouchers/Faithful.antt =====
-- The lines, the reasons and the matches of all rows of a group.
use invoice_hub.Prelude.Int.{zero-+ℤ, ℤ, ◌+ℤ◌}
use invoice_hub.Bookkeeping.Mapping.Resolve.{resolve_account_mapping}
use invoice_hub.Domain.{VoucherLine, VoucherSourceLine, forced_manual, auto}
use invoice_hub.Bookkeeping.Vouchers.Row.{Row, as_decimal}
use invoice_hub.Bookkeeping.Vouchers.Lines.{
  LineAccounts, is_zero_decimal, tax_part, voucher_lines_for_source,
}
use invoice_hub.Bookkeeping.Status.{Host}
use invoice_hub.Bookkeeping.Vouchers.Facts.{GroupFacts, RowFacts, VoucherHost, all_facts, row_facts}
use invoice_hub.Bookkeeping.Vouchers.Draft.{all_lines, draft_reasons, row_reasons, tier_of}
use invoice_hub.Bookkeeping.Money.{Decimal, cents, signed, zero_decimal}
use invoice_hub.Prelude.{
  Bool, Bool-cases, List, String, [], ap, arith, false, inl, inr, is_empty, refl, subst, true, ℕ,
  ◌&&◌, ◌∷◌, ◌≡◌, ◌≢◌,
}
use invoice_hub.Bookkeeping.Vouchers.Reviewed.{append-is_nil, is_empty→nil}
use invoice_hub.Bookkeeping.Vouchers.Balanced.{AllPrinted, AllPrinted-append}
use invoice_hub.Bookkeeping.Result.{>>=-eq-ok, ok, ok-injective}

tax_part-AllPrinted :
    (host : Host) (source : VoucherSourceLine) (summary : String) (a : LineAccounts) (d : Decimal)
    → AllPrinted (tax_part host source summary a d)
unfolding tax_part
tax_part-AllPrinted host source summary a d = elim (Bool-cases (is_zero_decimal d)) [
  | inl e ↦ rw e tt
  | inr e ↦ rw e ((d, refl), tt)
]

voucher_lines_for_source-AllPrinted :
    (host : Host) (source : VoucherSourceLine) (ids number : String) (a : LineAccounts)
    (lines : List VoucherLine)
    → voucher_lines_for_source host source ids number a ≡ ok lines
    → AllPrinted lines
unfolding voucher_lines_for_source
voucher_lines_for_source-AllPrinted host source ids number a lines h =
    let (x, _, h₁) = >>=-eq-ok (as_decimal source.pretax_amount) _ h in
    let (y, _, h₂) = >>=-eq-ok (as_decimal source.tax_amount) _ h₁ in
    let (w, _, h₃) = >>=-eq-ok (as_decimal source.total_amount) _ h₂ in
    subst AllPrinted (ok-injective h₃) (
      (x, refl),
      AllPrinted-append (tax_part host source _ a y) _ (tax_part-AllPrinted host source _ a y)
          ((w, refl), tt),
    )

row_facts-AllPrinted :
    (host : VoucherHost) (group : GroupFacts) (index : ℕ) (row : Row) (f : RowFacts)
    → row_facts host group index row ≡ ok f
    → AllPrinted f.lines
unfolding row_facts
row_facts-AllPrinted host group index row f h =
    let (_, _, h₁) = >>=-eq-ok (resolve_account_mapping host.mapping group.rules _ _) _ h in
    let (lines, hl, h₂) = >>=-eq-ok (voucher_lines_for_source host.base _ _ _ _) _ h₁ in
    subst AllPrinted (ap (λ r. r.lines) (ok-injective h₂))
      (voucher_lines_for_source-AllPrinted host.base _ _ _ _ lines hl)

pub all_facts-AllPrinted :
    (host : VoucherHost) (group : GroupFacts) (rows : List (ℕ × Row)) (fs : List RowFacts)
    → all_facts host group rows ≡ ok fs
    → AllPrinted (all_lines fs)
unfolding all_facts all_lines
all_facts-AllPrinted host group [] fs h =
    subst (λ gs. AllPrinted (all_lines gs)) (ok-injective h) tt
all_facts-AllPrinted host group ((index, row) ∷ rows) fs h =
    let (f, hf, h₁) = >>=-eq-ok (row_facts host group index row) _ h in
    let (rest, hr, h₂) = >>=-eq-ok (all_facts host group rows) _ h₁ in
    subst (λ gs. AllPrinted (all_lines gs)) (ok-injective h₂)
      (AllPrinted-append f.lines (all_lines rest) (row_facts-AllPrinted host group index row f hf)
        (all_facts-AllPrinted host group rows rest hr))

pub and_true : (a b : Bool) → (a && b) ≡ true → (a ≡ true) × (b ≡ true)
and_true a b h = (ground arith, ground arith)

pub tier_of-forced : (b u : Bool) → tier_of b u ≢ forced_manual → b ≡ true
unfolding tier_of
tier_of-forced true u h = refl
tier_of-forced false u h = elim (h refl) [ ]

pub from_zero : (z : ℤ) → cents zero_decimal +ℤ z ≡ z
unfolding cents signed
from_zero z = zero-+ℤ z

pub no_row_reasons :
    (number : String) (rows : List (ℕ × Row)) (fs : List RowFacts)
    → is_empty (draft_reasons number rows fs) ≡ true
    → row_reasons fs ≡ []
unfolding draft_reasons
no_row_reasons number rows fs h =
    let (_, h₁) = append-is_nil _ (is_empty→nil _ h) in let (h₂, _) = append-is_nil _ h₁ in h₂

pub tier_of-auto : (b u : Bool) → tier_of b u ≡ auto → u ≡ false
unfolding tier_of
tier_of-auto true true h = cc
tier_of-auto true false h = refl
tier_of-auto false u h = cc
