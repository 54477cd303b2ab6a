-- ===== src/Bookkeeping/Decisions/Saved.antt =====
-- What `apply_voucher_decision` stores.
use invoice_hub.Bookkeeping.Status.Transactions.{
  mutate-eq-ok, revision_guard-eq-ok, write_store-batches, write_store-lookup-insert,
  write_store-revision,
}
use invoice_hub.Bookkeeping.Status.Store.{commit}
use invoice_hub.Prelude.Dict.{lookup, Dict}
use invoice_hub.Prelude.Text.{is_blank}
use invoice_hub.Bookkeeping.Decisions.Validated.{validated_allocations-AllCovered, AllCovered}
use invoice_hub.Bookkeeping.Decisions.Allocations.{validated_allocations}
use invoice_hub.Bookkeeping.Decisions.Balance.{materialize_lines-Totals, open_tax, tax_total}
use invoice_hub.Prelude.Int.{eqb_ℤ, pos, ℤ, ◌+ℤ◌, +ℤ_parts, parts_eq}
use invoice_hub.Bookkeeping.Decisions.Apply.{
  decide_snapshot, decided_snapshot, apply_voucher_decision, decidable_item, decide, decided_item,
  is_editable, revised_snapshot,
}
use invoice_hub.Prelude.{
  ap, refl, sym, ◌∙◌, ◌≡◌, arith, String, if◌then◌else◌, some, str_eq, subst, true, ◌+◌, ◌||◌, List,
  eq_iff, is_empty, not,
}
use invoice_hub.Domain.{
  VoucherDecisionPatch, VoucherDraft, credit, debit, VoucherStatusItem, review_pending, VoucherLine,
  VoucherLineDecision, VoucherProjectAllocation, TaxTreatment,
}
use invoice_hub.Bookkeeping.Decisions.Lines.{
  LedgerCatalog, direction_total, line_decisions, materialize_lines,
}
use invoice_hub.Bookkeeping.Status.{Host, VoucherStatusStore, proposal_revision_hash}
use invoice_hub.Bookkeeping.Result.{
  >>=-eq-ok, ok, ok-injective, no_command, raise_if-eq-ok, not_found, no_source_lines, not_editable,
  not-false, or_raise-eq-ok, proposal_conflict, proposal_tampered,
}

-- Two totals that differ by `gap` are equal exactly where the gap is zero.
eqb_gap : (d c gap : ℤ) → d +ℤ gap ≡ c → eqb_ℤ d c ≡ eqb_ℤ gap (pos 0)
eqb_gap d c gap h = grind (arith, +ℤ_parts d gap, parts_eq h)

-- The parts of a decided snapshot.
record Parts (host : Host) (patch : VoucherDecisionPatch) (catalogs : LedgerCatalog)
    (snapshot revised : VoucherDraft) : Type 0 where
  allocations : List VoucherProjectAllocation
  decisions : Dict VoucherLineDecision
  lines : List VoucherLine
  d : ℤ
  c : ℤ
  valid : validated_allocations snapshot.source_lines patch.project_allocations ≡ ok allocations
  made :
      materialize_lines host decisions catalogs patch.tax_treatment allocations
        snapshot.source_lines
      ≡ ok lines
  debits : direction_total debit lines ≡ ok d
  credits : direction_total credit lines ≡ ok c
  result : revised_snapshot host patch snapshot allocations decisions lines d c ≡ revised

decide_snapshot-Parts :
    (host : Host) (patch : VoucherDecisionPatch) (catalogs : LedgerCatalog)
    (snapshot revised : VoucherDraft)
    → decide_snapshot host patch catalogs snapshot ≡ ok revised
    → Parts host patch catalogs snapshot revised
unfolding decide_snapshot
decide_snapshot-Parts host patch catalogs snapshot revised h =
    let sources = snapshot.source_lines in
    let (allocations, ha, h₁) =
      >>=-eq-ok (validated_allocations sources patch.project_allocations) _ h in
    let (decisions, hd, h₂) = >>=-eq-ok (line_decisions snapshot patch.lines) _ h₁ in
    let (lines, hl, h₃) =
      >>=-eq-ok (materialize_lines host decisions catalogs patch.tax_treatment allocations sources)
        _ h₂ in
    let (d, hdeb, h₄) = >>=-eq-ok (direction_total debit lines) _ h₃ in
    let (c, hcre, h₅) = >>=-eq-ok (direction_total credit lines) _ h₄ in
    record {
      allocations = allocations;
      decisions = decisions;
      lines = lines;
      d = d;
      c = c;
      valid = ha;
      made = hl;
      debits = hdeb;
      credits = hcre;
      result = ok-injective h₅;
    }

revised_snapshot-balance_ok :
    (host : Host) (patch : VoucherDecisionPatch) (snapshot : VoucherDraft)
    (allocations : List VoucherProjectAllocation) (decisions : Dict VoucherLineDecision)
    (lines : List VoucherLine) (d c : ℤ)
    → (revised_snapshot host patch snapshot allocations decisions lines d c).balance_ok ≡ eqb_ℤ d c
unfolding revised_snapshot decided_snapshot
revised_snapshot-balance_ok host patch snapshot allocations decisions lines d c = refl

revised_snapshot-sealed :
    (host : Host) (patch : VoucherDecisionPatch) (snapshot : VoucherDraft)
    (allocations : List VoucherProjectAllocation) (decisions : Dict VoucherLineDecision)
    (lines : List VoucherLine) (d c : ℤ)
    → let revised = revised_snapshot host patch snapshot allocations decisions lines d c in
      revised.proposal_revision_hash ≡ proposal_revision_hash host revised
unfolding revised_snapshot proposal_revision_hash
revised_snapshot-sealed host patch snapshot allocations decisions lines d c = refl

revised_snapshot-lines :
    (host : Host) (patch : VoucherDecisionPatch) (snapshot : VoucherDraft)
    (allocations : List VoucherProjectAllocation) (decisions : Dict VoucherLineDecision)
    (lines : List VoucherLine) (d c : ℤ)
    → let revised = revised_snapshot host patch snapshot allocations decisions lines d c in
      (revised.source_lines ≡ snapshot.source_lines)
      × (revised.project_allocations ≡ allocations)
      × (revised.lines ≡ lines)
unfolding revised_snapshot decided_snapshot
revised_snapshot-lines host patch snapshot allocations decisions lines d c = (refl, refl, refl)

-- The lines of a decided snapshot: its allocations are those of the patch and cover its source
-- lines, which are those that were there, and its two sides differ by the tax that is open.
pub record IsMaterialized (treatment : TaxTreatment) (given : List VoucherProjectAllocation)
    (before revised : VoucherDraft) : Type 0 where
  pub sources : revised.source_lines ≡ before.source_lines
  pub validated : validated_allocations before.source_lines given ≡ ok revised.project_allocations
  pub covered : AllCovered revised.project_allocations before.source_lines
  pub debit_total : ℤ
  pub credit_total : ℤ
  pub tax : ℤ
  pub debits : direction_total debit revised.lines ≡ ok debit_total
  pub credits : direction_total credit revised.lines ≡ ok credit_total
  pub taxed : tax_total before.source_lines ≡ ok tax
  pub sides : debit_total +ℤ open_tax treatment tax ≡ credit_total
  pub balance : revised.balance_ok ≡ eqb_ℤ (open_tax treatment tax) (pos 0)

decide_snapshot-IsMaterialized :
    (host : Host) (patch : VoucherDecisionPatch) (catalogs : LedgerCatalog)
    (snapshot revised : VoucherDraft)
    → decide_snapshot host patch catalogs snapshot ≡ ok revised
    → IsMaterialized patch.tax_treatment patch.project_allocations snapshot revised
decide_snapshot-IsMaterialized host patch catalogs snapshot revised h =
    let p = decide_snapshot-Parts host patch catalogs snapshot revised h in
    let covered =
      validated_allocations-AllCovered snapshot.source_lines patch.project_allocations p.allocations
        p.valid in
    let (d', c', t, totals, ht, e) =
      materialize_lines-Totals host p.decisions catalogs patch.tax_treatment p.allocations
        snapshot.source_lines p.lines covered p.made in
    let (same_sources, same_allocations, same_lines) =
      revised_snapshot-lines host patch snapshot p.allocations p.decisions p.lines p.d p.c in
    let allocated = ap (λ s. s.project_allocations) (sym p.result) ∙ same_allocations in
    let lined = ap (λ s. s.lines) (sym p.result) ∙ same_lines in
    let gap =
      ap (λ x. x +ℤ open_tax patch.tax_treatment t) (ok-injective (sym p.debits ∙ totals.0))
      ∙ e
      ∙ ok-injective (sym totals.1 ∙ p.credits) in
    record {
      sources = ap (λ s. s.source_lines) (sym p.result) ∙ same_sources;
      validated = p.valid ∙ ap ok (sym allocated);
      covered = subst (λ x. AllCovered x snapshot.source_lines) (sym allocated) covered;
      debit_total = p.d;
      credit_total = p.c;
      tax = t;
      debits = ap (direction_total debit) lined ∙ p.debits;
      credits = ap (direction_total credit) lined ∙ p.credits;
      taxed = ht;
      sides = gap;
      balance =
          ap (λ s. s.balance_ok) (sym p.result)
          ∙ revised_snapshot-balance_ok host patch snapshot p.allocations p.decisions p.lines p.d
              p.c
          ∙ eqb_gap p.d p.c (open_tax patch.tax_treatment t) gap;
    }

-- The stored hash is that of the stored content.
decide_snapshot-sealed :
    (host : Host) (patch : VoucherDecisionPatch) (catalogs : LedgerCatalog)
    (snapshot revised : VoucherDraft)
    → decide_snapshot host patch catalogs snapshot ≡ ok revised
    → revised.proposal_revision_hash ≡ proposal_revision_hash host revised
decide_snapshot-sealed host patch catalogs snapshot revised h =
    let p = decide_snapshot-Parts host patch catalogs snapshot revised h in
    subst (λ r. r.proposal_revision_hash ≡ proposal_revision_hash host r) p.result
      (revised_snapshot-sealed host patch snapshot p.allocations p.decisions p.lines p.d p.c)

-- What holds of the item that a decision was saved for, and of what was saved.
pub record IsDecided (host : Host) (patch : VoucherDecisionPatch) (current : VoucherStatusStore)
    (after : VoucherStatusStore) (updated : VoucherStatusItem) : Type 0 where
  pub before : VoucherStatusItem
  pub found : lookup patch.voucher_key current.items ≡ some before
  pub editable : is_editable before.status ≡ true
  pub intact : before.snapshot.proposal_revision_hash ≡ proposal_revision_hash host before.snapshot
  pub expected : before.snapshot.proposal_revision_hash ≡ patch.expected_proposal_revision_hash
  pub status : updated.status ≡ review_pending
  pub item_revision : updated.item_revision ≡ before.item_revision + 1
  pub sealed :
      updated.snapshot.proposal_revision_hash ≡ proposal_revision_hash host updated.snapshot
  pub materialized :
      IsMaterialized patch.tax_treatment patch.project_allocations before.snapshot updated.snapshot
  pub items :
      (j : String)
      → lookup j after.items
        ≡ (if str_eq patch.voucher_key j then some updated else lookup j current.items)
  pub batches : after.batches ≡ current.batches
  pub store_revision : after.revision ≡ patch.expected_store_revision + 1

decidable_item_lem :
    (host : Host) (patch : VoucherDecisionPatch) (current : VoucherStatusStore)
    (item : VoucherStatusItem)
    → decidable_item host patch current ≡ ok item
    → (lookup patch.voucher_key current.items ≡ some item)
      × (is_editable item.status ≡ true)
      × (item.snapshot.proposal_revision_hash ≡ proposal_revision_hash host item.snapshot)
      × (item.snapshot.proposal_revision_hash ≡ patch.expected_proposal_revision_hash)
unfolding decidable_item
decidable_item_lem host patch current item h =
    let (a, found, h₁) =
      or_raise-eq-ok (lookup patch.voucher_key current.items) (not_found patch.voucher_key) _ h in
    let stored = a.snapshot.proposal_revision_hash in
    let (editable, h₂) = raise_if-eq-ok (not (is_editable a.status)) not_editable _ h₁ in
    let (intact, h₃) =
      raise_if-eq-ok (not (str_eq stored (proposal_revision_hash host a.snapshot)))
        proposal_tampered _ h₂ in
    let (agreed, h₄) =
      raise_if-eq-ok (not (str_eq stored patch.expected_proposal_revision_hash))
        (proposal_conflict patch.expected_proposal_revision_hash stored) _ h₃ in
    let (_, h₅) = raise_if-eq-ok (is_empty a.snapshot.source_lines) no_source_lines _ h₄ in
    subst
      (λ x.
        (lookup patch.voucher_key current.items ≡ some x)
        × (is_editable x.status ≡ true)
        × (x.snapshot.proposal_revision_hash ≡ proposal_revision_hash host x.snapshot)
        × (x.snapshot.proposal_revision_hash ≡ patch.expected_proposal_revision_hash))
      (ok-injective h₅)
      (
        found,
        not-false _ editable,
        (eq_iff _ _).0 (not-false _ intact),
        (eq_iff _ _).0 (not-false _ agreed),
      )

decided_item_fields :
    (host : Host) (patch : VoucherDecisionPatch) (item : VoucherStatusItem) (revised : VoucherDraft)
    → let updated = decided_item host patch item revised in
      (updated.status ≡ review_pending)
      × (updated.item_revision ≡ item.item_revision + 1)
      × (updated.snapshot ≡ revised)
unfolding decided_item
decided_item_fields host patch item revised = (refl, refl, refl)

-- A decision that is saved was made on the revision and the content that its author saw, and is
-- sealed by the hash of its content. The source lines are those that were there; the allocations
-- that are saved are those of the patch that passed the validation, and cover the source lines to
-- the cent. The credits of the saved lines are their debits and the tax that is open, which is that
-- of the source lines where the treatment is pending, else zero, and the flag says whether it is
-- zero. No other voucher is changed.
pub apply_voucher_decision-IsDecided :
    (host : Host) (patch : VoucherDecisionPatch) (catalogs : LedgerCatalog)
    (current after : VoucherStatusStore) (updated : VoucherStatusItem)
    → apply_voucher_decision host patch catalogs current ≡ ok (after, updated)
    → IsDecided host patch current after updated
unfolding apply_voucher_decision decide
apply_voucher_decision-IsDecided host patch catalogs current after updated h =
    let (_, h₁) =
      raise_if-eq-ok (is_blank patch.command_id || is_blank patch.decided_by) no_command _ h in
    let (changed, _, guarded, made, committed) =
      mutate-eq-ok host (decide host patch catalogs) (some patch.expected_store_revision) current
        h₁ in
    let (item, hi, h₂) = >>=-eq-ok (decidable_item host patch current) _ made in
    let (revised, hr, h₃) = >>=-eq-ok (decide_snapshot host patch catalogs item.snapshot) _ h₂ in
    let (found, editable, intact, same_hash) = decidable_item_lem host patch current item hi in
    let stored = decided_item host patch item revised in
    let (status, item_revision, snapshot) = decided_item_fields host patch item revised in
    let result = ap (commit host current) (ok-injective h₃) ∙ committed in
    let same : stored ≡ updated = ap (λ r. r.1) result in
    record {
      before = item;
      found = found;
      editable = editable;
      intact = intact;
      expected = same_hash;
      status = ap (λ x. x.status) (sym same) ∙ status;
      item_revision = ap (λ x. x.item_revision) (sym same) ∙ item_revision;
      sealed =
          subst (λ x. x.snapshot.proposal_revision_hash ≡ proposal_revision_hash host x.snapshot)
            same
            (subst (λ d. d.proposal_revision_hash ≡ proposal_revision_hash host d) (sym snapshot)
              (decide_snapshot-sealed host patch catalogs item.snapshot revised hr));
      materialized =
          subst (IsMaterialized patch.tax_treatment patch.project_allocations item.snapshot)
            (sym snapshot ∙ ap (λ x. x.snapshot) same)
            (decide_snapshot-IsMaterialized host patch catalogs item.snapshot revised hr);
      items = λ j.
          ap (λ r. lookup j r.0.items) (sym result)
          ∙ write_store-lookup-insert host current patch.voucher_key stored j
          ∙ ap (λ x. if str_eq patch.voucher_key j then some x else lookup j current.items) same;
      batches = ap (λ r. r.0.batches) (sym result) ∙ write_store-batches host current _ _;
      store_revision =
          ap (λ r. r.0.revision) (sym result)
          ∙ write_store-revision host current _ _
          ∙ ap (λ n. n + 1) (revision_guard-eq-ok patch.expected_store_revision current guarded);
    }
