-- ===== src/Bookkeeping/Decisions/Validated.antt =====
-- What `_validated_allocations` has established of the allocations that it returns.
use invoice_hub.Prelude.Text.{is_blank}
use invoice_hub.Prelude.Int.{ℤ, ◌+ℤ◌, eqb_ℤ, ltb_ℤ, pos}
use invoice_hub.Bookkeeping.Result.{
  ok, >>=-eq-ok, Error, allocation_sum, bad_allocation_id, negative_allocation, no_project,
  raise_if, raise_if-eq-ok, unbalanced_allocation, unknown_source_line, duplicate_source_line,
  ok-injective, unallocated_source,
}
use invoice_hub.Bookkeeping.Decisions.Allocations.{
  amount, check_allocation, check_allocations, check_source, in_source_order, of_source, source_ids,
  sum_amounts, has_duplicates, check_sources, validated_allocations,
}
use invoice_hub.Domain.{VoucherProjectAllocation, VoucherSourceLine}
use invoice_hub.Bookkeeping.Decisions.Sums.{IsSplit, sum_amounts-IsSplit}
use mathlib.Core.Path.{ap₂}
use mathlib.Core.List.{append-nil}
use invoice_hub.Prelude.{
  All, Bool, Bool-cases, List, String, [], ap, elem, false, inl, inr, refl, select, str_eq, ◌++◌,
  ◌∷◌, ◌≡◌, arith, eq_iff, not, sym, true, ◌&&◌, ◌||◌, ◌∙◌, subst, any, eq_refl, is_empty,
}

-- The allocations `own` of a source line split it to the cent.
pub record IsCovered (own : List VoucherProjectAllocation) (s : VoucherSourceLine) : Type 0 where
  pub pretax : ℤ
  pub tax : ℤ
  pub source_pretax : amount s.pretax_amount ≡ ok pretax
  pub source_tax : amount s.tax_amount ≡ ok tax
  pub source_total : amount s.total_amount ≡ ok (pretax +ℤ tax)
  pub own_pretax : sum_amounts (λ a. a.pretax_amount) own ≡ ok pretax
  pub own_tax : sum_amounts (λ a. a.tax_amount) own ≡ ok tax
  pub own_total : sum_amounts (λ a. a.total_amount) own ≡ ok (pretax +ℤ tax)

raise_if_eqb : (a b : ℤ) (e : Error) → raise_if (not (eqb_ℤ a b)) e ≡ ok tt → a ≡ b
raise_if_eqb a b e h = ground arith

raise_if_eqb₃ :
    (a b c d f g : ℤ) (e : Error)
    → raise_if (not (eqb_ℤ a b && eqb_ℤ c d && eqb_ℤ f g)) e ≡ ok tt
    → (a ≡ b) × (c ≡ d) × (f ≡ g)
raise_if_eqb₃ a b c d f g e h = ground arith

check_allocation-IsSplit :
    (known seen : List String) (a : VoucherProjectAllocation)
    → check_allocation known seen a ≡ ok tt
    → IsSplit a
unfolding check_allocation
check_allocation-IsSplit known seen a h =
    let (_, h₁) = raise_if-eq-ok (not (elem a.source_line_id known)) unknown_source_line _ h in
    let (_, h₂) =
      raise_if-eq-ok (is_blank a.allocation_id || elem a.allocation_id seen) bad_allocation_id _
        h₁ in
    let (_, h₃) =
      raise_if-eq-ok (is_blank a.project_id && is_blank a.project_name) no_project _ h₂ in
    let (p, ep, h₄) = >>=-eq-ok (amount a.pretax_amount) _ h₃ in
    let (t, et, h₅) = >>=-eq-ok (amount a.tax_amount) _ h₄ in
    let (z, ez, h₆) = >>=-eq-ok (amount a.total_amount) _ h₅ in
    let (_, h₇) =
      raise_if-eq-ok (ltb_ℤ p (pos 0) || ltb_ℤ t (pos 0) || not (ltb_ℤ (pos 0) z))
        negative_allocation _ h₆ in
    (p, t, ep, et, ez ∙ ap ok (sym (raise_if_eqb (p +ℤ t) z unbalanced_allocation h₇)))

check_allocations-IsSplit :
    (known seen : List String) (raw : List VoucherProjectAllocation)
    → check_allocations known seen raw ≡ ok tt
    → All IsSplit raw
unfolding check_allocations
check_allocations-IsSplit known seen [] h = tt
check_allocations-IsSplit known seen (a ∷ raw) h =
    let (_, first, rest) = >>=-eq-ok (check_allocation known seen a) _ h in
    (check_allocation-IsSplit known seen a first, check_allocations-IsSplit known _ raw rest)

All-select {ℓ κ} :
    {A : Type ℓ} (P : A → Type κ) (p : A → Bool) (xs : List A) → All P xs → All P (select p xs)
All-select P p [] h = tt
All-select P p (x ∷ xs) (hx, h) = elim (Bool-cases (p x)) [
  | inl e ↦ rw e (hx, All-select P p xs h)
  | inr e ↦ rw e (All-select P p xs h)
]

check_source-IsCovered :
    (raw : List VoucherProjectAllocation) (s : VoucherSourceLine)
    → All IsSplit raw
    → check_source raw s ≡ ok tt
    → IsCovered (of_source s.source_line_id raw) s
unfolding check_source
check_source-IsCovered raw s split h =
    let own = of_source s.source_line_id raw in
    let (p, ep, h₁) = >>=-eq-ok (amount s.pretax_amount) _ h in
    let (t, et, h₂) = >>=-eq-ok (amount s.tax_amount) _ h₁ in
    let (z, ez, h₃) = >>=-eq-ok (amount s.total_amount) _ h₂ in
    let (p', ep', h₄) = >>=-eq-ok (sum_amounts (λ a. a.pretax_amount) own) _ h₃ in
    let (t', et', h₅) = >>=-eq-ok (sum_amounts (λ a. a.tax_amount) own) _ h₄ in
    let (z', ez', h₆) = >>=-eq-ok (sum_amounts (λ a. a.total_amount) own) _ h₅ in
    let (sp, st, sz) = raise_if_eqb₃ p' p t' t z' z allocation_sum h₆ in
    let total : p +ℤ t ≡ z =
      sym (ap₂ ◌+ℤ◌ sp st)
      ∙ sum_amounts-IsSplit own (All-select IsSplit _ raw split) ep' et' ez'
      ∙ sz in
    record {
      pretax = p;
      tax = t;
      source_pretax = ep;
      source_tax = et;
      source_total = ez ∙ ap ok (sym total);
      own_pretax = ep' ∙ ap ok sp;
      own_tax = et' ∙ ap ok st;
      own_total = ez' ∙ ap ok (sz ∙ sym total);
    }

select-append {ℓ} :
    {A : Type ℓ} (p : A → Bool) (xs ys : List A) → select p (xs ++ ys) ≡ select p xs ++ select p ys
select-append p [] ys = refl
select-append p (x ∷ xs) ys = elim (Bool-cases (p x)) [
  | inl e ↦ rw (e, select-append p xs ys)
  | inr e ↦ rw (e, select-append p xs ys)
]

-- Selecting again by the same test changes nothing.
select-select {ℓ} : {A : Type ℓ} (p : A → Bool) (xs : List A) → select p (select p xs) ≡ select p xs
select-select p [] = refl
select-select p (x ∷ xs) = elim (Bool-cases (p x)) [
  | inl e ↦ rw e (rw e (ap (λ r. x ∷ r) (select-select p xs)))
  | inr e ↦ rw e (select-select p xs)
]

of_source-of_source_ne :
    (id key : String) (raw : List VoucherProjectAllocation)
    → str_eq key id ≡ false
    → of_source id (of_source key raw) ≡ []
of_source-of_source_ne id key [] h = refl
of_source-of_source_ne id key (a ∷ raw) h = elim (Bool-cases (str_eq a.source_line_id key)) [
  | inl e ↦ rw e (
      rw (subst (λ k. str_eq k id ≡ false) (sym ((eq_iff a.source_line_id key).0 e)) h)
        (of_source-of_source_ne id key raw h))
  | inr e ↦ rw e (of_source-of_source_ne id key raw h)
]

or_false : (a b : Bool) → (a || b) ≡ false → (a ≡ false) × (b ≡ false)
or_false a b h = ground arith

-- An id that no source line has selects nothing from the allocations in source order.
of_source-in_source_order_ne :
    (id : String) (raw : List VoucherProjectAllocation) (sources : List VoucherSourceLine)
    → elem id (source_ids sources) ≡ false
    → of_source id (in_source_order raw sources) ≡ []
unfolding in_source_order
of_source-in_source_order_ne id raw [] h = refl
of_source-in_source_order_ne id raw (s ∷ sources) h =
    let (key_ne, rest) = or_false (str_eq s.source_line_id id) (elem id (source_ids sources)) h in
    select-append (λ a. str_eq a.source_line_id id) (of_source s.source_line_id raw)
      (in_source_order raw sources)
    ∙ ap (λ l. l ++ of_source id (in_source_order raw sources))
        (of_source-of_source_ne id s.source_line_id raw key_ne)
    ∙ of_source-in_source_order_ne id raw sources rest

-- The allocations in source order, selected by the id of a source line, are those of the raw list.
of_source-in_source_order :
    (id : String) (raw : List VoucherProjectAllocation) (sources : List VoucherSourceLine)
    → has_duplicates (source_ids sources) ≡ false
    → elem id (source_ids sources) ≡ true
    → of_source id (in_source_order raw sources) ≡ of_source id raw
unfolding in_source_order has_duplicates
of_source-in_source_order id raw [] h k = cc
of_source-in_source_order id raw (s ∷ sources) h k =
    let (fresh, distinct) =
      or_false (elem s.source_line_id (source_ids sources)) (has_duplicates (source_ids sources))
        h in
    select-append (λ a. str_eq a.source_line_id id) (of_source s.source_line_id raw)
      (in_source_order raw sources)
    ∙ elim (Bool-cases (str_eq s.source_line_id id)) [
      | inl e ↦
          let same_id = (eq_iff s.source_line_id id).0 e in
          ap₂ ◌++◌
            (ap (λ k. of_source id (of_source k raw)) same_id
              ∙ select-select (λ a. str_eq a.source_line_id id) raw)
            (of_source-in_source_order_ne id raw sources
              (subst (λ k. elem k (source_ids sources) ≡ false) same_id fresh))
          ∙ append-nil (of_source id raw)
      | inr e ↦
          ap₂ ◌++◌ (of_source-of_source_ne id s.source_line_id raw e)
            (of_source-in_source_order id raw sources distinct (rw e at k))
    ]

abbrev pub AllCovered : List VoucherProjectAllocation → List VoucherSourceLine → Type 0
AllCovered allocations = All (λ s. IsCovered (of_source s.source_line_id allocations) s)

check_sources-AllCovered :
    (raw : List VoucherProjectAllocation) (sources : List VoucherSourceLine)
    → All IsSplit raw
    → check_sources raw sources ≡ ok tt
    → AllCovered raw sources
unfolding check_sources
check_sources-AllCovered raw [] split h = tt
check_sources-AllCovered raw (s ∷ sources) split h =
    let (_, first, rest) = >>=-eq-ok (check_source raw s) _ h in
    (check_source-IsCovered raw s split first, check_sources-AllCovered raw sources split rest)

-- Source lines among `all_sources` are covered by the reordered allocations too.
reordered-AllCovered :
    (raw : List VoucherProjectAllocation) (all_sources part : List VoucherSourceLine)
    → has_duplicates (source_ids all_sources) ≡ false
    → All (λ s. elem s.source_line_id (source_ids all_sources) ≡ true) part
    → AllCovered raw part
    → AllCovered (in_source_order raw all_sources) part
reordered-AllCovered raw all_sources [] distinct known h = tt
reordered-AllCovered raw all_sources (s ∷ part) distinct (k, known) (c, h) = (
  subst (λ own. IsCovered own s)
      (sym (of_source-in_source_order s.source_line_id raw all_sources distinct k)) c,
  reordered-AllCovered raw all_sources part distinct known h,
)

known_weaken :
    (id : String) (sources part : List VoucherSourceLine)
    → All (λ s. elem s.source_line_id (source_ids sources) ≡ true) part
    → All (λ s. elem s.source_line_id (id ∷ source_ids sources) ≡ true) part
known_weaken id sources [] h = tt
known_weaken id sources (s ∷ part) (k, h) = (ground arith, known_weaken id sources part h)

sources_known :
    (sources : List VoucherSourceLine)
    → All (λ s. elem s.source_line_id (source_ids sources) ≡ true) sources
sources_known [] = tt
sources_known (s ∷ sources) = (
  rw (eq_refl s.source_line_id),
  known_weaken s.source_line_id sources sources (sources_known sources),
)

-- The allocations that `_validated_allocations` returns split every source line to the cent.
pub validated_allocations-AllCovered :
    (sources : List VoucherSourceLine) (raw allocations : List VoucherProjectAllocation)
    → validated_allocations sources raw ≡ ok allocations
    → AllCovered allocations sources
unfolding validated_allocations
validated_allocations-AllCovered sources raw allocations h =
    let ids = source_ids sources in
    let (distinct, h₁) = raise_if-eq-ok (has_duplicates ids) duplicate_source_line _ h in
    let (_, checked, h₂) = >>=-eq-ok (check_allocations ids [] raw) _ h₁ in
    let (_, h₃) =
      raise_if-eq-ok (any (λ s. is_empty (of_source s.source_line_id raw)) sources)
        unallocated_source _ h₂ in
    let (_, covered, h₄) = >>=-eq-ok (check_sources raw sources) _ h₃ in
    subst (λ l. AllCovered l sources) (ok-injective h₄)
      (reordered-AllCovered raw sources sources distinct (sources_known sources) (
        check_sources-AllCovered raw sources (check_allocations-IsSplit ids [] raw checked)
          covered))
