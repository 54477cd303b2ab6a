-- ===== src/Bookkeeping/Decisions/Balance.antt =====
-- The sides of the lines that a decision makes: equal to the cent, but for a tax whose treatment is
-- pending.
use invoice_hub.Bookkeeping.Decisions.Validated.{IsCovered, AllCovered}
use invoice_hub.Bookkeeping.Result.{
  ok, >>=-eq-ok, ok-injective, Result, not_found, raise_if-eq-ok, ◌>>=◌,
}
use invoice_hub.Bookkeeping.Decisions.Sums.{
  direction_total-append, amount-format_f, amount_of_money, money-is_cents,
}
use invoice_hub.Bookkeeping.Decisions.Allocations.{amount, sum_amounts, of_source}
use invoice_hub.Prelude.{
  List, Option, String, [], ap, refl, ◌++◌, ◌∷◌, ◌≡◌, arith, some, subst, sym, true, ◌∙◌,
  Bool-cases, inl, inr, is_empty, none,
}
use invoice_hub.Bookkeeping.Decisions.Lines.{
  LedgerCatalog, decided_line, direction_total, cost_lines, cost_text, source_lines_of,
  source_summary, tax_lines, materialize_lines,
}
use invoice_hub.Bookkeeping.Status.{Host}
use invoice_hub.Domain.{
  Direction, LineRole, VoucherLine, VoucherLineDecision, VoucherProjectAllocation,
  VoucherSourceLine, credit, debit, TaxTreatment, deductible, pending, non_deductible,
}
use invoice_hub.Prelude.Dict.{Dict}
use invoice_hub.Bookkeeping.Money.{Decimal, format_f, cents, is_cents, money}
use invoice_hub.Prelude.Int.{+ℤ-zero, pos, ℤ, ◌+ℤ◌, zero-+ℤ, eqb_ℤ, eqb_ℤ→eq, parts_eq, int_laws}

-- What a list of lines comes to on each side.
abbrev pub Totals : List VoucherLine → ℤ → ℤ → Type 0
Totals lines d c = (direction_total debit lines ≡ ok d) × (direction_total credit lines ≡ ok c)

pub Totals-append :
    (xs ys : List VoucherLine) {d c d' c' : ℤ}
    → Totals xs d c
    → Totals ys d' c'
    → Totals (xs ++ ys) (d +ℤ d') (c +ℤ c')
Totals-append xs ys (hd, hc) (kd, kc) =
    (direction_total-append debit xs ys hd kd, direction_total-append credit xs ys hc kc)

pub Totals-nil : Totals [] (pos 0) (pos 0)
unfolding direction_total
Totals-nil = (refl, refl)

pub Totals-one_debit :
    (l : VoucherLine) {z : ℤ}
    → l.direction ≡ debit
    → amount l.amount ≡ ok z
    → Totals (l ∷ []) z (pos 0)
unfolding direction_total
Totals-one_debit l {z} e h = (rw e (rw h (ap ok (+ℤ-zero z))), rw e)

pub Totals-one_credit :
    (l : VoucherLine) {z : ℤ}
    → l.direction ≡ credit
    → amount l.amount ≡ ok z
    → Totals (l ∷ []) (pos 0) z
unfolding direction_total
Totals-one_credit l {z} e h = (rw e, rw e (rw h (ap ok (+ℤ-zero z))))

-- The tax that stays outside the debit lines: all of it while the treatment is pending.
abbrev pub open_tax : TaxTreatment → ℤ → ℤ
open_tax pending t = t
open_tax _ t = pos 0

abbrev pub deducted : TaxTreatment → ℤ → ℤ
deducted deductible t = t
deducted _ t = pos 0

abbrev pub costed : TaxTreatment → ℤ → ℤ → ℤ
costed non_deductible p t = p +ℤ t
costed _ p t = p

open_tax_zero : (tt' : TaxTreatment) → pos 0 +ℤ open_tax tt' (pos 0) ≡ pos 0
open_tax_zero deductible = omega int_laws
open_tax_zero non_deductible = omega int_laws
open_tax_zero pending = omega int_laws

open_tax_add :
    (tt' : TaxTreatment) (d₁ d₂ c₁ c₂ t₁ t₂ : ℤ)
    → d₁ +ℤ open_tax tt' t₁ ≡ c₁
    → d₂ +ℤ open_tax tt' t₂ ≡ c₂
    → d₁ +ℤ d₂ +ℤ open_tax tt' (t₁ +ℤ t₂) ≡ c₁ +ℤ c₂
open_tax_add deductible d₁ d₂ c₁ c₂ t₁ t₂ h k = omega (int_laws, parts_eq h, parts_eq k)
open_tax_add non_deductible d₁ d₂ c₁ c₂ t₁ t₂ h k = omega (int_laws, parts_eq h, parts_eq k)
open_tax_add pending d₁ d₂ c₁ c₂ t₁ t₂ h k = omega (int_laws, parts_eq h, parts_eq k)

source_sum :
    (tt' : TaxTreatment) (p t z c : ℤ)
    → z ≡ deducted tt' t
    → c ≡ p +ℤ t
    → costed tt' p t +ℤ (z +ℤ pos 0) +ℤ open_tax tt' t ≡ pos 0 +ℤ (pos 0 +ℤ c)
source_sum deductible p t z c h k = omega (int_laws, parts_eq h, parts_eq k)
source_sum non_deductible p t z c h k = omega (int_laws, parts_eq h, parts_eq k)
source_sum pending p t z c h k = omega (int_laws, parts_eq h, parts_eq k)

-- The tax of all source lines.
unfoldable pub tax_total : List VoucherSourceLine → Result ℤ
tax_total [] = ok (pos 0)
tax_total (s ∷ sources) = do
  first ← amount s.tax_amount
  rest ← tax_total sources
  ok (first +ℤ rest)

module _ (host : Host) (decisions : Dict VoucherLineDecision) (catalogs : LedgerCatalog) where
  -- A decided line has the direction and the amount that it was made with.
  decided_line_lem :
      (s : VoucherSourceLine) (role : LineRole) (dir : Direction) (d : Decimal) (words : String)
      (a : Option VoucherProjectAllocation) (l : VoucherLine)
      → decided_line host decisions catalogs s role dir d words a ≡ ok l
      → (l.direction ≡ dir) × (l.amount ≡ format_f d)
  unfolding decided_line
  decided_line_lem s role dir d words a l h = ground arith

  -- A decided line weighs the cents of its amount, on its side.
  decided-Totals_debit :
      (s : VoucherSourceLine) (role : LineRole) (d : Decimal) (words : String)
      (a : Option VoucherProjectAllocation) (l : VoucherLine)
      → is_cents d ≡ true
      → decided_line host decisions catalogs s role debit d words a ≡ ok l
      → Totals (l ∷ []) (cents d) (pos 0)
  decided-Totals_debit s role d words a l e h =
      let (dir, amt) = decided_line_lem s role debit d words a l h in
      Totals-one_debit l dir (ap amount amt ∙ amount-format_f d e)

  decided-Totals_credit :
      (s : VoucherSourceLine) (role : LineRole) (d : Decimal) (words : String)
      (a : Option VoucherProjectAllocation) (l : VoucherLine)
      → is_cents d ≡ true
      → decided_line host decisions catalogs s role credit d words a ≡ ok l
      → Totals (l ∷ []) (pos 0) (cents d)
  decided-Totals_credit s role d words a l e h =
      let (dir, amt) = decided_line_lem s role credit d words a l h in
      Totals-one_credit l dir (ap amount amt ∙ amount-format_f d e)

  -- The cost lines of a source line debit what its allocations cost.
  cost_lines-Totals :
      (tt' : TaxTreatment) (s : VoucherSourceLine) (own : List VoucherProjectAllocation)
      (lines : List VoucherLine) {z : ℤ}
      → cost_lines host decisions catalogs tt' s own ≡ ok lines
      → sum_amounts (cost_text tt') own ≡ ok z
      → Totals lines z (pos 0)
  unfolding cost_lines sum_amounts
  cost_lines-Totals tt' s [] lines {z} h k =
      subst (λ l. Totals l z (pos 0)) (ok-injective h)
        (subst (λ x. Totals [] x (pos 0)) (ok-injective k) Totals-nil)
  cost_lines-Totals tt' s (a ∷ own) lines {z} h k =
      let (d, hd, h₁) = >>=-eq-ok (money (cost_text tt' a)) _ h in
      let (l, hl, h₂) =
        >>=-eq-ok (decided_line host decisions catalogs s LineRole.cost debit d _ (some a)) _ h₁ in
      let (ls, hls, h₃) = >>=-eq-ok (cost_lines host decisions catalogs tt' s own) _ h₂ in
      let (z₁, hz₁, k₁) = >>=-eq-ok (amount (cost_text tt' a)) _ k in
      let (z₂, hz₂, k₂) = >>=-eq-ok (sum_amounts (cost_text tt') own) _ k₁ in
      let first : cents d ≡ z₁ =
        ok-injective (sym (amount_of_money (cost_text tt' a) d hd) ∙ hz₁) in
      subst (λ l. Totals l z (pos 0)) (ok-injective h₃)
        (subst (λ x. Totals (l ∷ ls) x (pos 0)) (ap (λ c. c +ℤ z₂) first ∙ ok-injective k₂)
          (subst (λ c. Totals (l ∷ ls) (cents d +ℤ z₂) c) (zero-+ℤ (pos 0))
            (Totals-append (l ∷ []) ls
              (decided-Totals_debit s LineRole.cost d _ (some a) l (money-is_cents _ d hd) hl)
              (cost_lines-Totals tt' s own ls hls hz₂))))

  -- The tax line of a deductible tax debits it, and is left out where there is none.
  tax_lines-Totals :
      (s : VoucherSourceLine) (tax : Decimal) (lines : List VoucherLine)
      → is_cents tax ≡ true
      → tax_lines host decisions catalogs deductible s tax ≡ ok lines
      → Totals lines (cents tax) (pos 0)
  unfolding tax_lines
  tax_lines-Totals s tax lines e h = elim (Bool-cases (eqb_ℤ (cents tax) (pos 0))) [
    | inl zero_tax ↦
        subst (λ l. Totals l (cents tax) (pos 0)) (ok-injective (rw zero_tax at h))
          (subst (λ x. Totals [] x (pos 0)) (sym (eqb_ℤ→eq (cents tax) (pos 0) zero_tax))
            Totals-nil)
    | inr some_tax ↦
        let (l, hl, h₁) =
          >>=-eq-ok
            (decided_line host decisions catalogs s LineRole.input_tax debit tax (source_summary s)
              none)
            _ (rw some_tax at h) in
        subst (λ ls. Totals ls (cents tax) (pos 0)) (ok-injective h₁)
          (decided-Totals_debit s LineRole.input_tax tax (source_summary s) none l e hl)
  ]

  no_tax_lines-Totals : (taxes : List VoucherLine) → ok [] ≡ ok taxes → Totals taxes (pos 0) (pos 0)
  no_tax_lines-Totals taxes h = subst (λ l. Totals l (pos 0) (pos 0)) (ok-injective h) Totals-nil

  -- The tax lines debit the tax that is deductible.
  taxes-Totals :
      (tt' : TaxTreatment) (s : VoucherSourceLine) (tax : Decimal) (taxes : List VoucherLine)
      → is_cents tax ≡ true
      → tax_lines host decisions catalogs tt' s tax ≡ ok taxes
      → (z : ℤ) × Totals taxes z (pos 0) × (z ≡ deducted tt' (cents tax))
  unfolding tax_lines
  taxes-Totals deductible s tax taxes e h =
      (cents tax, unfold tax_lines in tax_lines-Totals s tax taxes e h, refl)
  taxes-Totals non_deductible s tax taxes e h = (pos 0, no_tax_lines-Totals taxes h, refl)
  taxes-Totals pending s tax taxes e h = (pos 0, no_tax_lines-Totals taxes h, refl)

  -- The cost lines debit the pretax amount, or the total where the tax is not deductible.
  costs-Totals :
      (tt' : TaxTreatment) (own : List VoucherProjectAllocation) (s : VoucherSourceLine)
      (v : IsCovered own s) (costs : List VoucherLine)
      → cost_lines host decisions catalogs tt' s own ≡ ok costs
      → Totals costs (costed tt' v.pretax v.tax) (pos 0)
  costs-Totals deductible own s v costs h = cost_lines-Totals deductible s own costs h v.own_pretax
  costs-Totals non_deductible own s v costs h =
      cost_lines-Totals non_deductible s own costs h v.own_total
  costs-Totals pending own s v costs h = cost_lines-Totals pending s own costs h v.own_pretax

  -- The lines of a covered source line: its total on the credit side, and on the debit side the same
  -- without the open tax.
  source_lines_of-Totals :
      (tt' : TaxTreatment) (allocations : List VoucherProjectAllocation) (s : VoucherSourceLine)
      (lines : List VoucherLine)
      → IsCovered (of_source s.source_line_id allocations) s
      → source_lines_of host decisions catalogs tt' allocations s ≡ ok lines
      → (d : ℤ) × (c : ℤ) × (t : ℤ) × Totals lines d c
        × (amount s.tax_amount ≡ ok t)
        × (d +ℤ open_tax tt' t ≡ c)
  unfolding source_lines_of
  source_lines_of-Totals tt' allocations s lines v h =
      let own = of_source s.source_line_id allocations in
      let (_, h₁) = raise_if-eq-ok (is_empty own) (not_found s.source_line_id) _ h in
      let (tax, htax, h₂) = >>=-eq-ok (money s.tax_amount) _ h₁ in
      let (total, htotal, h₃) = >>=-eq-ok (money s.total_amount) _ h₂ in
      let (costs, hcosts, h₄) = >>=-eq-ok (cost_lines host decisions catalogs tt' s own) _ h₃ in
      let (taxes, htaxes, h₅) = >>=-eq-ok (tax_lines host decisions catalogs tt' s tax) _ h₄ in
      let (l, hl, h₆) =
        >>=-eq-ok
          (decided_line host decisions catalogs s LineRole.payable credit total (source_summary s)
            none)
          _ h₅ in
      let tax_cents : cents tax ≡ v.tax =
        ok-injective (sym (amount_of_money _ tax htax) ∙ v.source_tax) in
      let total_cents : cents total ≡ v.pretax +ℤ v.tax =
        ok-injective (sym (amount_of_money _ total htotal) ∙ v.source_total) in
      let payable_totals =
        decided-Totals_credit s LineRole.payable total (source_summary s) none l
          (money-is_cents _ total htotal) hl in
      let (z, taxes_totals, ez) = taxes-Totals tt' s tax taxes (money-is_cents _ tax htax) htaxes in
      (
        costed tt' v.pretax v.tax +ℤ (z +ℤ pos 0),
        pos 0 +ℤ (pos 0 +ℤ cents total),
        v.tax,
        subst
            (λ ls.
              Totals ls (costed tt' v.pretax v.tax +ℤ (z +ℤ pos 0))
                (pos 0 +ℤ (pos 0 +ℤ cents total)))
            (ok-injective h₆)
            (Totals-append costs (taxes ++ l ∷ []) (costs-Totals tt' own s v costs hcosts)
              (Totals-append taxes (l ∷ []) taxes_totals payable_totals)),
        v.source_tax,
        source_sum tt' v.pretax v.tax z (cents total) (ez ∙ ap (deducted tt') tax_cents)
            total_cents,
      )

  -- All lines of a voucher with covered source lines.
  pub materialize_lines-Totals :
      (tt' : TaxTreatment) (allocations : List VoucherProjectAllocation)
      (sources : List VoucherSourceLine) (lines : List VoucherLine)
      → AllCovered allocations sources
      → materialize_lines host decisions catalogs tt' allocations sources ≡ ok lines
      → (d : ℤ) × (c : ℤ) × (t : ℤ) × Totals lines d c
        × (tax_total sources ≡ ok t)
        × (d +ℤ open_tax tt' t ≡ c)
  unfolding materialize_lines tax_total
  materialize_lines-Totals tt' allocations [] lines v h = (
    pos 0,
    pos 0,
    pos 0,
    subst (λ l. Totals l (pos 0) (pos 0)) (ok-injective h) Totals-nil,
    refl,
    open_tax_zero tt',
  )
  materialize_lines-Totals tt' allocations (s ∷ sources) lines (v, vs) h =
      let (first, h₁, k₁) =
        >>=-eq-ok (source_lines_of host decisions catalogs tt' allocations s) _ h in
      let (rest, h₂, k₂) =
        >>=-eq-ok (materialize_lines host decisions catalogs tt' allocations sources) _ k₁ in
      let (d₁, c₁, t₁, tot₁, et₁, e₁) = source_lines_of-Totals tt' allocations s first v h₁ in
      let (d₂, c₂, t₂, tot₂, et₂, e₂) =
        materialize_lines-Totals tt' allocations sources rest vs h₂ in
      (
        d₁ +ℤ d₂,
        c₁ +ℤ c₂,
        t₁ +ℤ t₂,
        subst (λ l. Totals l (d₁ +ℤ d₂) (c₁ +ℤ c₂)) (ok-injective k₂)
            (Totals-append first rest tot₁ tot₂),
        rw (et₁, et₂),
        open_tax_add tt' d₁ d₂ c₁ c₂ t₁ t₂ e₁ e₂,
      )
