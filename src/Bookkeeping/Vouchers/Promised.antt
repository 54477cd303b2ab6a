-- ===== src/Bookkeeping/Vouchers/Promised.antt =====
-- What a draft promises of its rows: its totals, `balance_ok` and `review_tier`.
use invoice_hub.Bookkeeping.Mapping.Resolve.{fingerprints}
use invoice_hub.Bookkeeping.Vouchers.Balanced.{
  all_facts-Totals, at_start, credit_cents, debit_cents, side_total-cents, sums_eq,
}
use invoice_hub.Bookkeeping.Vouchers.Faithful.{
  all_facts-AllPrinted, and_true, from_zero, no_row_reasons, tier_of-auto, tier_of-forced,
}
use invoice_hub.Bookkeeping.Vouchers.Matched.{AreMatched, all_facts-AreMatched}
use invoice_hub.Domain.{VoucherDraft, auto, credit, debit, forced_manual}
use invoice_hub.Bookkeeping.Decisions.Balance.{Totals}
use invoice_hub.Bookkeeping.Vouchers.Facts.{RowFacts, VoucherHost, all_facts}
use invoice_hub.Bookkeeping.Vouchers.Row.{Row}
use invoice_hub.Bookkeeping.Vouchers.Draft.{
  DraftHeader, all_lines, draft_from_group, draft_reasons, group_facts, sealed, side_total,
  some_unmatched, tier_of, unsealed_draft,
}
use invoice_hub.Bookkeeping.Money.{Decimal, decimal_eq, zero_decimal}
use invoice_hub.Bookkeeping.Vouchers.Reviewed.{AllSound, all_facts-AllSound}
use invoice_hub.Prelude.{List, String, ap, is_empty, map, subst, sym, true, ℕ, ◌&&◌, ◌∙◌, ◌≡◌, ◌≢◌}
use invoice_hub.Bookkeeping.Result.{>>=-eq-ok, ok, ok-injective}

-- Where a draft comes from: the facts of its rows and the totals of the two sides.
record IsMade (host : VoucherHost) (header : DraftHeader) (number : String) (rows : List (ℕ × Row))
    (d : VoucherDraft) : Type 0 where
  facts : List RowFacts
  read : all_facts host (group_facts host header number rows) rows ≡ ok facts
  debits : Decimal
  credits : Decimal
  debit_side : side_total debit zero_decimal (all_lines facts) ≡ ok debits
  credit_side : side_total credit zero_decimal (all_lines facts) ≡ ok credits
  same_lines : d.lines ≡ all_lines facts
  same_sources : d.source_lines ≡ map (λ f. f.source_line) facts
  same_resolutions : d.rule_resolutions ≡ map (λ f. f.resolution) facts
  balance : d.balance_ok ≡ decimal_eq debits credits && is_empty (draft_reasons number rows facts)
  tier : d.review_tier ≡ tier_of (is_empty (draft_reasons number rows facts)) (some_unmatched facts)

module _ (host : VoucherHost) (header : DraftHeader) (number anchor : String)
    (rows : List (ℕ × Row)) (d : VoucherDraft) where
  draft_from_group-IsMade :
      draft_from_group host header number anchor rows ≡ ok d → IsMade host header number rows d
  unfolding draft_from_group sealed unsealed_draft
  draft_from_group-IsMade h =
      let group = group_facts host header number rows in
      let (fs, hf, h₁) = >>=-eq-ok (all_facts host group rows) _ h in
      let (x, hx, h₂) = >>=-eq-ok (side_total debit zero_decimal (all_lines fs)) _ h₁ in
      let (y, hy, h₃) = >>=-eq-ok (side_total credit zero_decimal (all_lines fs)) _ h₂ in
      let (prints, _, h₄) = >>=-eq-ok (fingerprints host.mapping _) _ h₃ in
      let e = ok-injective (sym h₄) in
      record {
        facts = fs;
        read = hf;
        debits = x;
        credits = y;
        debit_side = hx;
        credit_side = hy;
        same_lines = ap (λ v. v.lines) e;
        same_sources = ap (λ v. v.source_lines) e;
        same_resolutions = ap (λ v. v.rule_resolutions) e;
        balance = ap (λ v. v.balance_ok) e;
        tier = ap (λ v. v.review_tier) e;
      }

  IsMade-AllSound :
      (m : IsMade host header number rows d)
      → is_empty (draft_reasons number rows m.facts) ≡ true
      → AllSound rows
  IsMade-AllSound m e =
      all_facts-AllSound host (group_facts host header number rows) rows m.facts m.read
        (no_row_reasons number rows m.facts e)

  -- The lines of a draft come to the amounts of its rows, each rounded to the cent: pretax amounts
  -- and taxes on the debit side, totals on the credit side.
  pub draft_from_group-Totals :
      draft_from_group host header number anchor rows ≡ ok d
      → Totals d.lines (debit_cents rows) (credit_cents rows)
  draft_from_group-Totals h =
      let m = draft_from_group-IsMade h in
      subst (λ ls. Totals ls (debit_cents rows) (credit_cents rows)) (sym m.same_lines)
        (all_facts-Totals host (group_facts host header number rows) rows m.facts m.read)

  -- A draft with `balance_ok` is made of sound rows, and the two sides of the rows are equal.
  pub draft_from_group-balance_ok :
      draft_from_group host header number anchor rows ≡ ok d
      → d.balance_ok ≡ true
      → (debit_cents rows ≡ credit_cents rows) × AllSound rows
  draft_from_group-balance_ok h b =
      let m = draft_from_group-IsMade h in
      let group = group_facts host header number rows in
      let (same_sum, no_reasons) = and_true _ _ (sym m.balance ∙ b) in
      let (td, tc) = all_facts-Totals host group rows m.facts m.read in
      let p = all_facts-AllPrinted host group rows m.facts m.read in
      let (cx, ex) =
        side_total-cents debit zero_decimal (all_lines m.facts) m.debits p at_start m.debit_side
          td in
      let (cy, ey) =
        side_total-cents credit zero_decimal (all_lines m.facts) m.credits p at_start m.credit_side
          tc in
      (
        sym (ex ∙ from_zero _) ∙ (sums_eq m.debits m.credits cx cy same_sum ∙ (ey ∙ from_zero _)),
        IsMade-AllSound m no_reasons,
      )

  -- A draft that is not forced to a manual check is made of sound rows.
  pub draft_from_group-AllSound :
      draft_from_group host header number anchor rows ≡ ok d
      → d.review_tier ≢ forced_manual
      → AllSound rows
  draft_from_group-AllSound h n =
      let m = draft_from_group-IsMade h in
      IsMade-AllSound m (tier_of-forced _ _ (λ e. n (m.tier ∙ e)))

  -- A draft of the tier `auto` has one source line and one resolution for each row, in order: the
  -- source line with the number of the row, and the resolution, which names that source line, with
  -- the outcome `matched`.
  pub draft_from_group-AreMatched :
      draft_from_group host header number anchor rows ≡ ok d
      → d.review_tier ≡ auto
      → AreMatched rows d.source_lines d.rule_resolutions
  draft_from_group-AreMatched h e =
      let m = draft_from_group-IsMade h in
      subst (λ sources. AreMatched rows sources d.rule_resolutions) (sym m.same_sources)
        (subst (AreMatched rows (map (λ f. f.source_line) m.facts)) (sym m.same_resolutions) (
          all_facts-AreMatched host (group_facts host header number rows) rows m.facts m.read
            (tier_of-auto _ _ (sym m.tier ∙ e))))
