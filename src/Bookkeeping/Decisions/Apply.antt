-- ===== src/Bookkeeping/Decisions/Apply.antt =====
-- `apply_voucher_decision` and `_materialized_decision_templates`.
use invoice_hub.Bookkeeping.Decisions.Allocations.{validated_allocations}
use invoice_hub.Prelude.Text.{is_blank, strip}
use invoice_hub.Prelude.Int.{eqb_ℤ, ℤ}
use invoice_hub.Bookkeeping.Result.{
  Result, no_command, no_source_lines, not_editable, not_found, ok, or_raise, proposal_conflict,
  proposal_tampered, raise_if, ◌>>=◌, ◌>>◌,
}
use invoice_hub.Domain.{
  LineRole, VoucherDecisionPatch, VoucherDraft, VoucherLine, VoucherLineDecision,
  VoucherProjectAllocation, VoucherSourceLine, VoucherState, VoucherStatusItem, credit, debit,
  draft, fields, manual, manual_confirmed, needs_review, rejected, review_pending, state_eq,
  evidence,
}
use invoice_hub.Bookkeeping.Decisions.Lines.{
  LedgerCatalog, decision_of_line, direction_total, line_decisions, materialize_lines,
}
use invoice_hub.Prelude.Dict.{Dict, insert, lookup, values}
use invoice_hub.Bookkeeping.Status.{
  Change, Host, VoucherStatusStore, audit_entry, mutate_voucher_status, proposal_revision_hash,
  replaced,
}
use Prim.Native.String.{◌++◌ as append}
use invoice_hub.Prelude.{
  String, Bool, List, [], any, if◌then◌else◌, is_empty, none, not, some, str_eq, text_lt, ◌++◌, ◌+◌,
  ◌||◌, ◌∷◌, map,
}

-- `item.status not in EDITABLE_STATUSES`
unfoldable pub is_editable : VoucherState → Bool
is_editable s =
    any (λ x. state_eq x s) (draft ∷ VoucherState.blocked ∷ review_pending ∷ rejected ∷ [])

-- The decisions kept under the three template ids of a source line.
unfoldable pub retained_role :
    Host
    → Dict VoucherLineDecision
    → String
    → LineRole
    → Dict VoucherLineDecision
    → Dict VoucherLineDecision
retained_role host decisions source_line_id role kept =
    let line_id = host.line_sha256 source_line_id none role in
    elim (lookup line_id decisions) [ none ↦ kept | some d ↦ insert line_id d kept ]

unfoldable pub retained_decisions :
    Host
    → Dict VoucherLineDecision
    → List VoucherSourceLine
    → Dict VoucherLineDecision
    → Dict VoucherLineDecision
retained_decisions host decisions [] kept = kept
retained_decisions host decisions (source ∷ sources) kept =
    retained_decisions host decisions sources (
      retained_role host decisions source.source_line_id LineRole.payable (
        retained_role host decisions source.source_line_id LineRole.input_tax
          (retained_role host decisions source.source_line_id LineRole.cost kept)))

unfoldable pub line_templates :
    List VoucherLine → Dict VoucherLineDecision → Dict VoucherLineDecision
line_templates [] kept = kept
line_templates (l ∷ ls) kept = line_templates ls (insert l.line_id (decision_of_line l) kept)

-- `sorted(retained)`: insertion by the order of texts.
unfoldable pub insert_sorted :
    String × VoucherLineDecision → Dict VoucherLineDecision → Dict VoucherLineDecision
insert_sorted e [] = e ∷ []
insert_sorted e (x ∷ xs) =
    let later = x ∷ insert_sorted e xs in if text_lt x.0 e.0 then later else e ∷ x ∷ xs

unfoldable pub sort_keys : Dict VoucherLineDecision → Dict VoucherLineDecision
sort_keys [] = []
sort_keys (x ∷ xs) = insert_sorted x (sort_keys xs)

unfoldable pub materialized_decision_templates :
    Host
    → List VoucherSourceLine
    → List VoucherLine
    → Dict VoucherLineDecision
    → List VoucherLineDecision
materialized_decision_templates host source_lines lines decisions =
    values (sort_keys (line_templates lines (retained_decisions host decisions source_lines [])))

-- The snapshot with the decision in it, before its hash is taken.
unfoldable pub decided_snapshot :
    Host
    → VoucherDecisionPatch
    → VoucherDraft
    → List VoucherProjectAllocation
    → List VoucherLineDecision
    → List VoucherLine
    → Bool
    → VoucherDraft
decided_snapshot host patch snapshot allocations templates lines balanced = record snapshot {
  business_class = patch.business_class;
  payment_state = patch.payment_state;
  payment_evidence_refs = map evidence patch.payment_evidence_refs;
  tax_treatment = patch.tax_treatment;
  tax_evidence_refs = map evidence patch.tax_evidence_refs;
  receiving_state = patch.receiving_state;
  receiving_evidence_refs = map evidence patch.receiving_evidence_refs;
  project_allocations = allocations;
  line_decision_templates = templates;
  lines = lines;
  balance_ok = balanced;
  review_tier = manual_confirmed;
  suggestion_source = manual;
  execution_readiness = needs_review;
  decision_confirmed_by = strip patch.decided_by;
  decision_confirmed_at = host.now;
  blockers = [];
  proposal_revision_hash = "";
}

-- The item that the decision stores: fields that are not named take their defaults.
unfoldable pub decided_item :
    Host → VoucherDecisionPatch → VoucherStatusItem → VoucherDraft → VoucherStatusItem
decided_item host patch item revised = record {
  status = review_pending;
  snapshot = revised;
  voucher_no = "";
  approved_at = "";
  approved_by = "";
  approved_revision_hash = "";
  imported_at = "";
  reject_reason = "";
  export_file = "";
  batch_id = "";
  item_revision = item.item_revision + 1;
  legacy_keys = item.legacy_keys;
  last_observation_hash = "";
  audit =
      item.audit
      ++ audit_entry host "decision_saved" (append "local:" (strip patch.decided_by)) (
          fields (
            ("command_id", strip patch.command_id)
            ∷ ("from_revision", item.snapshot.proposal_revision_hash)
            ∷ ("to_revision", revised.proposal_revision_hash)
            ∷ []))
        ∷ [];
}

-- The checks of `decide` before any line is made; they return the item.
unfoldable pub decidable_item :
    Host → VoucherDecisionPatch → VoucherStatusStore → Result VoucherStatusItem
decidable_item host patch current = do
  item ← or_raise (lookup patch.voucher_key current.items) (not_found patch.voucher_key)
  raise_if (not (is_editable item.status)) not_editable
  let current_hash = item.snapshot.proposal_revision_hash
  raise_if (not (str_eq current_hash (proposal_revision_hash host item.snapshot))) proposal_tampered
  raise_if (not (str_eq current_hash patch.expected_proposal_revision_hash))
      (proposal_conflict patch.expected_proposal_revision_hash current_hash)
  raise_if (is_empty item.snapshot.source_lines) no_source_lines
  ok item

-- The snapshot with the decision, its two totals compared, under its hash.
unfoldable pub revised_snapshot :
    Host
    → VoucherDecisionPatch
    → VoucherDraft
    → List VoucherProjectAllocation
    → Dict VoucherLineDecision
    → List VoucherLine
    → ℤ
    → ℤ
    → VoucherDraft
revised_snapshot host patch snapshot allocations decisions lines debit_total credit_total =
    let templates = materialized_decision_templates host snapshot.source_lines lines decisions in
    let decided =
      decided_snapshot host patch snapshot allocations templates lines
        (eqb_ℤ debit_total credit_total) in
    record decided { proposal_revision_hash = proposal_revision_hash host decided }

-- What `decide` makes of the item's snapshot.
unfoldable pub decide_snapshot :
    Host → VoucherDecisionPatch → LedgerCatalog → VoucherDraft → Result VoucherDraft
decide_snapshot host patch catalogs snapshot = do
  let source_lines = snapshot.source_lines
  allocations ← validated_allocations source_lines patch.project_allocations
  decisions ← line_decisions snapshot patch.lines
  lines ← materialize_lines host decisions catalogs patch.tax_treatment allocations source_lines
  debit_total ← direction_total debit lines
  credit_total ← direction_total credit lines
  ok (revised_snapshot host patch snapshot allocations decisions lines debit_total credit_total)

-- The mutator `decide`.
unfoldable pub decide :
    Host
    → VoucherDecisionPatch
    → LedgerCatalog
    → VoucherStatusStore
    → Result (Change × VoucherStatusItem)
decide host patch catalogs current = do
  item ← decidable_item host patch current
  revised ← decide_snapshot host patch catalogs item.snapshot
  let updated = decided_item host patch item revised
  ok (replaced (insert patch.voucher_key updated current.items) current.batches, updated)

unfoldable pub apply_voucher_decision :
    Host
    → VoucherDecisionPatch
    → LedgerCatalog
    → VoucherStatusStore
    → Result (VoucherStatusStore × VoucherStatusItem)
apply_voucher_decision host patch catalogs current = do
  raise_if (is_blank patch.command_id || is_blank patch.decided_by) no_command
  mutate_voucher_status host (decide host patch catalogs) (some patch.expected_store_revision)
      current
