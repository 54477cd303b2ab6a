-- ===== src/Bookkeeping/Decisions/Sums.antt =====
-- Sums over allocations and lines, and the printed amount of a line read back.
use invoice_hub.Prelude.Int.{ℤ, ◌+ℤ◌, int_laws, neg_part, parts_eq, pos_part}
use invoice_hub.Bookkeeping.Decisions.Lines.{direction_total, direction_eq}
use invoice_hub.Bookkeeping.Decisions.Allocations.{amount, sum_amounts}
use invoice_hub.Domain.{Direction, VoucherLine, VoucherProjectAllocation}
use invoice_hub.Bookkeeping.Money.{
  Decimal, cents, format_f, is_cents, money, decimal_of_text-format_f,
}
use invoice_hub.Prelude.{
  All, List, String, [], arith, true, ◌++◌, ◌∷◌, ◌≡◌, Bool-cases, ap, inl, inr, ◌∙◌,
}
use invoice_hub.Bookkeeping.Result.{>>=-eq-ok, ok, ok-injective}

-- A printed amount that is precise to cents reads back as its cents.
pub amount-format_f : (d : Decimal) → is_cents d ≡ true → amount (format_f d) ≡ ok (cents d)
unfolding amount money
amount-format_f d h = rw (decimal_of_text-format_f d) (rw h)

-- What `_money` returns is precise to cents.
pub money-is_cents : (t : String) (d : Decimal) → money t ≡ ok d → is_cents d ≡ true
unfolding money
money-is_cents t d h = ground arith

pub amount_of_money : (t : String) (d : Decimal) → money t ≡ ok d → amount t ≡ ok (cents d)
unfolding amount
amount_of_money t d h = rw h

-- Equal results have integers with equal parts.
pub ok_parts : {a b : ℤ} → ok a ≡ ok b → (pos_part a ≡ pos_part b) × (neg_part a ≡ neg_part b)
ok_parts h = parts_eq (ok-injective h)

pub direction_total-append :
    (dir : Direction) (xs ys : List VoucherLine) {a b : ℤ}
    → direction_total dir xs ≡ ok a
    → direction_total dir ys ≡ ok b
    → direction_total dir (xs ++ ys) ≡ ok (a +ℤ b)
unfolding direction_total
direction_total-append dir [] ys h k = k ∙ ap ok (omega (int_laws, ok_parts h))
direction_total-append dir (x ∷ xs) ys {a} {b} h k =
    elim (Bool-cases (direction_eq x.direction dir)) [
      | inl e ↦
          let (f, hf, r) = >>=-eq-ok (amount x.amount) _ (rw e at h) in
          let (t, ht, q) = >>=-eq-ok (direction_total dir xs) _ r in
          rw (e, hf, direction_total-append dir xs ys ht k) (ap ok (omega (int_laws, ok_parts q)))
      | inr e ↦ rw e (direction_total-append dir xs ys (rw e at h) k)
    ]

-- In each of the allocations the tax and the pretax amount make the total.
abbrev pub IsSplit : VoucherProjectAllocation → Type 0
IsSplit a =
    (p : ℤ) × (t : ℤ) × (amount a.pretax_amount ≡ ok p)
    × (amount a.tax_amount ≡ ok t)
    × (amount a.total_amount ≡ ok (p +ℤ t))

pub sum_amounts-IsSplit :
    (own : List VoucherProjectAllocation) {p t z : ℤ}
    → All IsSplit own
    → sum_amounts (λ a. a.pretax_amount) own ≡ ok p
    → sum_amounts (λ a. a.tax_amount) own ≡ ok t
    → sum_amounts (λ a. a.total_amount) own ≡ ok z
    → p +ℤ t ≡ z
unfolding sum_amounts
sum_amounts-IsSplit [] h hp ht hz = omega (int_laws, ok_parts hp, ok_parts ht, ok_parts hz)
sum_amounts-IsSplit (a ∷ own) ((p₁, t₁, ep, et, ez), h) hp ht hz =
    let (p₂, hp₂, qp) = >>=-eq-ok (sum_amounts (λ a. a.pretax_amount) own) _ (rw ep at hp) in
    let (t₂, ht₂, qt) = >>=-eq-ok (sum_amounts (λ a. a.tax_amount) own) _ (rw et at ht) in
    let (z₂, hz₂, qz) = >>=-eq-ok (sum_amounts (λ a. a.total_amount) own) _ (rw ez at hz) in
    omega (
      int_laws,
      ok_parts qp,
      ok_parts qt,
      ok_parts qz,
      parts_eq (sum_amounts-IsSplit own h hp₂ ht₂ hz₂),
    )
