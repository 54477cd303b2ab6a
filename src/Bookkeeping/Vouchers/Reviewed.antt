-- ===== src/Bookkeeping/Vouchers/Reviewed.antt =====
-- What a draft without reasons says about the rows it was made from.
use invoice_hub.Bookkeeping.Vouchers.Lines.{voucher_lines_for_source}
use invoice_hub.Bookkeeping.Vouchers.Draft.{row_reasons}
use invoice_hub.Bookkeeping.Mapping.Resolve.{resolve_account_mapping}
use invoice_hub.Bookkeeping.Result.{>>=-eq-ok, ok, ok-injective}
use invoice_hub.Bookkeeping.Vouchers.Facts.{
  row_amounts, GroupFacts, RowFacts, VoucherHost, all_facts, rate_reasons, row_facts, tail_reasons,
}
use invoice_hub.Prelude.Text.{is_empty_text}
use invoice_hub.Bookkeeping.Vouchers.Row.{
  Row, clean, difference, drop_marks, exceeds_tail, field_of, is_negative, is_plain_money,
  money_value, row_money,
}
use invoice_hub.Bookkeeping.Money.{Decimal, decimal_of_text}
use invoice_hub.Prelude.{
  List, Option, String, [], false, is_empty, none, refl, some, true, ℕ, ◌++◌, ◌∷◌, ◌≡◌, Bool, ap,
  arith, if◌then◌else◌, not, ◌&&◌, ◌==◌, ◌∙◌,
}

pub append-is_nil : (xs : List String) {ys : List String} → xs ++ ys ≡ [] → (xs ≡ []) × (ys ≡ [])
append-is_nil [] h = (refl, h)
append-is_nil (x ∷ xs) h = cc

pub is_empty→nil : (xs : List String) → is_empty xs ≡ true → xs ≡ []
is_empty→nil [] h = refl
is_empty→nil (x ∷ xs) h = cc

-- A field that holds a plain amount, not negative, which is `d`.
pub record IsReadable (row : Row) (field : String) (d : Decimal) : Type 0 where
  pub plain : is_plain_money (drop_marks (clean (field_of row field))) ≡ true
  pub read : decimal_of_text (drop_marks (clean (field_of row field))) ≡ some d
  pub not_negative : is_negative d ≡ false

-- A row whose amounts are readable and add up to the cent, with a tax rate.
pub record IsSound (index : ℕ) (row : Row) : Type 0 where
  pub pretax : IsReadable row "金额(除税)" (row_amounts row index).amount
  pub tax : IsReadable row "税金" (row_amounts row index).tax_amount
  pub total : IsReadable row "价税合计" (row_amounts row index).total
  pub rate : is_empty_text (clean (field_of row "税率")) ≡ false
  pub tail :
      exceeds_tail (
        difference
          (row_amounts row index).amount
          (row_amounts row index).tax_amount
          (row_amounts row index).total)
      ≡ false

no_sign_reason :
    (a b : Bool) (r : String) → (if a && not b then r ∷ [] else []) ≡ [] → (a && not b) ≡ false
no_sign_reason a b r h = ground arith

money_value-IsReadable :
    (row : Row) (field value : String) (index : ℕ) (o : Option Decimal)
    → decimal_of_text (drop_marks (clean (field_of row field))) ≡ o
    → is_plain_money (drop_marks (clean (field_of row field))) ≡ true
    → (money_value index field value o).1 ≡ []
    → IsReadable row field (money_value index field value o).0
unfolding money_value
money_value-IsReadable row field value index none e p h = cc
money_value-IsReadable row field value index (some d) e p h = record {
  plain = p;
  read = e;
  not_negative = no_sign_reason d.negative (d.coefficient == 0) _ h;
}

-- A value with its reasons, by a test.
no_reason_if :
    (t : Bool) {a b : Decimal × List String} (P : Decimal → Type 0)
    → (t ≡ true → a.1 ≡ [] → P a.0)
    → (t ≡ false → b.1 ≡ [] → P b.0)
    → (if t then a else b).1 ≡ []
    → P (if t then a else b).0
no_reason_if true P f g h = f refl h
no_reason_if false P f g h = g refl h

cons_not_nil : {x : String} {xs : List String} {P : Type 0} → x ∷ xs ≡ [] → P
cons_not_nil h = cc

row_money-IsReadable :
    (row : Row) (field : String) (index : ℕ)
    → (row_money row field index).1 ≡ []
    → IsReadable row field (row_money row field index).0
unfolding row_money
row_money-IsReadable row field index h =
    let text = drop_marks (clean (field_of row field)) in
    no_reason_if (is_empty_text text) (IsReadable row field) (λ _ k. cons_not_nil k)
      (λ _ k.
        no_reason_if (is_plain_money text) (IsReadable row field)
          (λ p m.
            money_value-IsReadable row field (field_of row field) index (decimal_of_text text) refl
              p m)
          (λ _ m. cons_not_nil m) k)
      h

if_reason : (t : Bool) (r : String) → (if t then r ∷ [] else []) ≡ [] → t ≡ false
if_reason t r h = ground arith

row_amounts-IsSound :
    (index : ℕ) (row : Row) → (row_amounts row index).reasons ≡ [] → IsSound index row
unfolding row_amounts rate_reasons tail_reasons
row_amounts-IsSound index row h =
    let (h₁, k₁) = append-is_nil _ h in
    let (h₂, k₂) = append-is_nil _ k₁ in
    let (h₃, k₃) = append-is_nil _ k₂ in
    let (h₄, h₅) = append-is_nil _ k₃ in
    record {
      pretax = row_money-IsReadable row "金额(除税)" index h₁;
      tax = row_money-IsReadable row "税金" index h₂;
      total = row_money-IsReadable row "价税合计" index h₃;
      rate = if_reason _ _ h₄;
      tail = if_reason _ _ h₅;
    }

-- All rows of a group are sound.
abbrev pub AllSound : List (ℕ × Row) → Type 0
AllSound [] = Unit
AllSound ((index, row) ∷ rows) = IsSound index row × AllSound rows

row_facts-IsSound :
    (host : VoucherHost) (group : GroupFacts) (index : ℕ) (row : Row) (f : RowFacts)
    → row_facts host group index row ≡ ok f
    → f.reasons ≡ []
    → IsSound index row
unfolding row_facts
row_facts-IsSound host group index row f h e =
    let (_, _, h₁) = >>=-eq-ok (resolve_account_mapping host.mapping group.rules _ _) _ h in
    let (_, _, h₂) = >>=-eq-ok (voucher_lines_for_source host.base _ _ _ _) _ h₁ in
    let (e₁, _) = append-is_nil _ (ap (λ r. r.reasons) (ok-injective h₂) ∙ e) in
    row_amounts-IsSound index row e₁

pub all_facts-AllSound :
    (host : VoucherHost) (group : GroupFacts) (rows : List (ℕ × Row)) (fs : List RowFacts)
    → all_facts host group rows ≡ ok fs
    → row_reasons fs ≡ []
    → AllSound rows
unfolding all_facts row_reasons
all_facts-AllSound host group [] fs h e = tt
all_facts-AllSound host group ((index, row) ∷ rows) fs h e =
    let (f, hf, h₁) = >>=-eq-ok (row_facts host group index row) _ h in
    let (rest, hr, h₂) = >>=-eq-ok (all_facts host group rows) _ h₁ in
    let (e₁, e₂) = append-is_nil f.reasons (ap row_reasons (ok-injective h₂) ∙ e) in
    (row_facts-IsSound host group index row f hf e₁, all_facts-AllSound host group rows rest hr e₂)
