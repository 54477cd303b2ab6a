-- ===== src/Bookkeeping/Batches/Register.antt =====
-- `register_export_batch`, `record_batch_dry_run` and `begin_import_batch`.
use invoice_hub.Prelude.Text.{or_else}
use invoice_hub.Bookkeeping.Money.{decimal_eq, decimal_of_text}
use invoice_hub.Bookkeeping.Result.{
  Result, bad_amount, dry_run_count, dry_run_credit, dry_run_debit, dry_run_failed, dry_run_file,
  hash_conflict, not_approved, not_found, ok, or_raise, raise_if, revision_changed,
  wrong_batch_state, ◌>>=◌, ◌>>◌,
}
use invoice_hub.Prelude.Dict.{Dict, insert, lookup}
use invoice_hub.Bookkeeping.Status.{
  Change, VoucherStatusStore, mutate_voucher_status, replaced, same,
}
use invoice_hub.Prelude.{
  Bool, List, Option, String, [], false, none, not, some, str_eq, true, ℕ, ◌&&◌, ◌++◌, ◌+◌, ◌==◌,
  ◌∷◌,
}
use invoice_hub.Domain.{
  BatchState, ImportBatch, ImportBatchItem, VoucherStatusItem, approved, awaiting_authorization,
  dry_run_passed, exported, fields, prepared, state_eq,
}
use invoice_hub.Bookkeeping.Batches.Shared.{
  BatchHost, DryRunPayload, batch_audit, verified_batch_file,
}

-- The item that an export stores.
unfoldable pub exported_item :
    BatchHost → ImportBatch → ImportBatchItem → VoucherStatusItem → VoucherStatusItem
exported_item host batch batch_item item = record item {
  status = exported;
  export_file = batch.file_path;
  batch_id = batch.batch_id;
  voucher_no = batch_item.planned_voucher_no;
  item_revision = item.item_revision + 1;
  audit =
      item.audit
      ++ batch_audit host "approved->exported" (fields (("batch_id", batch.batch_id) ∷ [])) ∷ [];
}

-- The loop of `register` over the items of the batch.
unfoldable pub export_items :
    BatchHost
    → ImportBatch
    → List ImportBatchItem
    → Dict VoucherStatusItem
    → Result (Dict VoucherStatusItem)
export_items host batch [] items = ok items
export_items host batch (b ∷ bs) items = do
  item ← or_raise (lookup b.posting_key items) (not_found b.posting_key)
  raise_if (not (state_eq item.status approved)) not_approved
  raise_if (not (str_eq item.approved_revision_hash b.proposal_revision_hash)) revision_changed
  export_items host batch bs (insert b.posting_key (exported_item host batch b item) items)

-- The rest of the mutator, by what the store records of the batch.
unfoldable pub register_from :
    BatchHost
    → ImportBatch
    → VoucherStatusStore
    → Option ImportBatch
    → Result (Change × ImportBatch)
register_from host batch current (some existing) = do
  raise_if (not (str_eq existing.file_sha256 batch.file_sha256)) hash_conflict
  ok (same, existing)
register_from host batch current none = do
  items ← export_items host batch batch.items current.items
  ok (replaced items (insert batch.batch_id batch current.batches), batch)

-- The mutator `register`.
unfoldable pub register :
    BatchHost → ImportBatch → VoucherStatusStore → Result (Change × ImportBatch)
register host batch current =
    register_from host batch current (lookup batch.batch_id current.batches)

unfoldable pub register_export_batch :
    BatchHost → ImportBatch → ℕ → VoucherStatusStore → Result (VoucherStatusStore × ImportBatch)
register_export_batch host batch expected_revision =
    mutate_voucher_status host.base (register host batch) (some expected_revision)

-- `batch.state not in {"prepared", "dry_run_passed", "awaiting_authorization"}`
abbrev pub takes_dry_run : BatchState → Bool
takes_dry_run prepared = true
takes_dry_run dry_run_passed = true
takes_dry_run awaiting_authorization = true
takes_dry_run _ = false

-- `int(payload.get("voucher_count") or -1) == batch.expected_count`: a count of 0 reads as -1.
abbrev pub count_matches : Option ℕ → ℕ → Bool
count_matches none expected = false
count_matches (some n) expected = not (n == 0) && n == expected

-- `Decimal(str(total or "0")) != Decimal(expected)`
unfoldable pub totals_differ : String → String → Result Bool
totals_differ total expected = do
  a ← or_raise (decimal_of_text (or_else total "0")) bad_amount
  b ← or_raise (decimal_of_text expected) bad_amount
  ok (not (decimal_eq a b))

unfoldable pub dry_run_batch : BatchHost → DryRunPayload → ImportBatch → ImportBatch
dry_run_batch host payload batch = record batch {
  revision = batch.revision + 1;
  state = awaiting_authorization;
  dry_run_at = host.base.now;
  audit =
      batch.audit
      ++ batch_audit host "dry_run_passed"
          (fields (("observation_hash", host.dry_run_sha256 payload) ∷ []))
        ∷ [];
}

-- The mutator `record`.
unfoldable pub record_dry_run :
    BatchHost → String → DryRunPayload → VoucherStatusStore → Result (Change × ImportBatch)
record_dry_run host batch_id payload current = do
  batch ← or_raise (lookup batch_id current.batches) (not_found batch_id)
  raise_if (not (takes_dry_run batch.state)) wrong_batch_state
  verified_batch_file host batch
  raise_if (not (str_eq payload.file_sha256 batch.file_sha256)) dry_run_file
  raise_if (not payload.is_ok) dry_run_failed
  raise_if (not (count_matches payload.voucher_count batch.expected_count)) dry_run_count
  debit_differs ← totals_differ payload.debit_total batch.expected_debit_total
  raise_if debit_differs dry_run_debit
  credit_differs ← totals_differ payload.credit_total batch.expected_credit_total
  raise_if credit_differs dry_run_credit
  let updated = dry_run_batch host payload batch
  ok (replaced current.items (insert batch_id updated current.batches), updated)

unfoldable pub record_batch_dry_run :
    BatchHost
    → String
    → DryRunPayload
    → VoucherStatusStore
    → Result (VoucherStatusStore × ImportBatch)
record_batch_dry_run host batch_id payload =
    mutate_voucher_status host.base (record_dry_run host batch_id payload) none
