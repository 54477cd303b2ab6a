-- ===== src/Bookkeeping/Tests/Batch.antt =====
-- The theorems on import batches, at a batch of one voucher.
use invoice_hub.Bookkeeping.Batches.Observable.{
  AreItemsDistinct, IsSettled, finalize_import_batch-IsSettled,
}
use invoice_hub.Bookkeeping.Batches.Authorized.{IsAuthorized, begin_import_batch-IsAuthorized}
use invoice_hub.Bookkeeping.Batches.Imports.{Imports, finalize_import_batch-Imports}
use invoice_hub.Bookkeeping.Batches.Settle.{settled_item}
use invoice_hub.Prelude.Dict.{insert, lookup}
use invoice_hub.Bookkeeping.Batches.Idempotent.{finalize_import_batch_again}
use invoice_hub.Bookkeeping.Batches.Terminal.{finalize_import_batch-IsKnown}
use invoice_hub.Bookkeeping.Batches.Register.{
  export_items, record_batch_dry_run, record_dry_run, register, register_export_batch,
  register_from, takes_dry_run,
}
use invoice_hub.Bookkeeping.Batches.Begin.{begin, begin_import_batch, is_awaiting}
use invoice_hub.Bookkeeping.Tests.Data.{
  batch_in, is_ok, item_in, ok_value, store_in, test_batch_host, value_of,
}
use invoice_hub.Prelude.{[], false, refl, some, true, ◌∷◌, ◌≡◌}
use invoice_hub.Bookkeeping.Status.{VoucherStatusStore, mutate_voucher_status, posting_key}
use invoice_hub.Bookkeeping.Result.{Result, ok}
use invoice_hub.Bookkeeping.Batches.Exported.{Registers, register_export_batch-Registers}
use invoice_hub.Bookkeeping.Batches.Immutable.{HasAdvanced, record_batch_dry_run-HasAdvanced}
use invoice_hub.Bookkeeping.Batches.Finalize.{
  Finalized, finalize, finalize_import_batch, new_receipt,
}
use invoice_hub.Domain.{
  BatchState, ImportBatch, Mode, Outcome, Receipt, VoucherStatusItem, applying, approved,
  awaiting_authorization, exported, imported, importing, prepared,
}
use invoice_hub.Bookkeeping.Batches.Shared.{Authorization, DryRunPayload, FinalizePayload}
use invoice_hub.Bookkeeping.Batches.Imported.{AllImported, finalize_import_batch-AllImported}

abbrev new_batch : ImportBatch
new_batch = record (batch_in prepared) { batch_id = "b2" }

abbrev registered : Result (VoucherStatusStore × ImportBatch)
registered = register_export_batch test_batch_host new_batch 5 (store_in approved prepared)

abbrev registered_value : VoucherStatusStore × ImportBatch
registered_value = value_of registered (store_in approved prepared, new_batch)

registered_ok : is_ok registered ≡ true
unfolding register_export_batch register register_from export_items mutate_voucher_status lookup
    insert
registered_ok = refl

register_export_batch-Registers_example :
    Registers new_batch (store_in approved prepared) registered_value.0 registered_value.1
register_export_batch-Registers_example =
    register_export_batch-Registers test_batch_host new_batch 5 (store_in approved prepared)
      registered_value.0 registered_value.1 (ok_value registered _ registered_ok)

abbrev test_dry_run : DryRunPayload
test_dry_run = record {
  file_sha256 = "file";
  is_ok = true;
  voucher_count = some 1;
  debit_total = "113";
  credit_total = "113.0";
}

abbrev dry : Result (VoucherStatusStore × ImportBatch)
dry = record_batch_dry_run test_batch_host "b1" test_dry_run (store_in exported prepared)

abbrev dry_value : VoucherStatusStore × ImportBatch
dry_value = value_of dry (store_in exported prepared, batch_in prepared)

dry_ok : is_ok dry ≡ true
unfolding record_batch_dry_run record_dry_run mutate_voucher_status lookup
    invoice_hub.Bookkeeping.Batches.Shared.verified_batch_file
    invoice_hub.Bookkeeping.Batches.Register.totals_differ
    invoice_hub.Bookkeeping.Money.decimal_of_text invoice_hub.Bookkeeping.Money.decimal_eq
dry_ok = refl

record_batch_dry_run-HasAdvanced_example :
    (before : ImportBatch) × HasAdvanced takes_dry_run awaiting_authorization "b1"
      (store_in exported prepared)
      dry_value.0
      before
      dry_value.1
record_batch_dry_run-HasAdvanced_example =
    record_batch_dry_run-HasAdvanced test_batch_host "b1" test_dry_run (store_in exported prepared)
      dry_value.0 dry_value.1 (ok_value dry _ dry_ok)

abbrev test_authorization : Authorization
test_authorization = record {
  batch_id = "b1";
  file_sha256 = "file";
  ledger_name = "ledger";
  period = "2026-01";
  command_id = "c1";
  authorized_by = "owner";
}

abbrev awaiting : VoucherStatusStore
awaiting = store_in exported awaiting_authorization

abbrev begun : Result (VoucherStatusStore × ImportBatch)
begun = begin_import_batch test_batch_host "b1" test_authorization awaiting

abbrev begun_value : VoucherStatusStore × ImportBatch
begun_value = value_of begun (awaiting, batch_in awaiting_authorization)

begun_ok : is_ok begun ≡ true
unfolding begin_import_batch begin mutate_voucher_status lookup
    invoice_hub.Bookkeeping.Batches.Shared.verified_batch_file
    invoice_hub.Bookkeeping.Batches.Begin.is_bound invoice_hub.Prelude.Text.strip
    invoice_hub.Bookkeeping.Batches.Begin.import_items
begun_ok = refl

begin_import_batch-IsAuthorized_example :
    (before : ImportBatch) × HasAdvanced is_awaiting applying "b1" awaiting begun_value.0 before
      begun_value.1
    × IsAuthorized test_batch_host test_authorization before
    × (before.state ≡ awaiting_authorization)
begin_import_batch-IsAuthorized_example =
    begin_import_batch-IsAuthorized test_batch_host "b1" test_authorization awaiting begun_value.0
      begun_value.1 (ok_value begun _ begun_ok)

abbrev test_observation : FinalizePayload
test_observation = record {
  mode = "";
  outcome = "confirmed_success";
  items = some (
      some (record {
        posting_key = "v1";
        observed_state = "imported";
        signature_hash = "signature";
        voucher_no = some "7";
      })
      ∷ []);
  readback_hash = "readback";
  commit_not_attempted = false;
  ledger_absence_confirmed = false;
}

abbrev applied : VoucherStatusStore
applied = store_in importing applying

abbrev finalized : Result (VoucherStatusStore × Finalized)
finalized = finalize_import_batch test_batch_host "b1" test_observation applied

abbrev empty_receipt : Receipt
empty_receipt = new_receipt test_batch_host "b1" "observation" Outcome.unknown Mode.apply []

abbrev finalized_value : VoucherStatusStore × Finalized
finalized_value =
    value_of finalized
      (applied, record { batch = batch_in applying; idempotent = true; result = empty_receipt })

finalized_ok : is_ok finalized ≡ true
unfolding finalize_import_batch finalize mutate_voucher_status lookup
    invoice_hub.Bookkeeping.Batches.Finalize.finalize_from
    invoice_hub.Bookkeeping.Batches.Finalize.finalize_new
    invoice_hub.Bookkeeping.Batches.Observed.finalize_mode
    invoice_hub.Bookkeeping.Batches.Observed.read_observed invoice_hub.Prelude.Text.strip insert
    invoice_hub.Bookkeeping.Batches.Observed.check_evidence
    invoice_hub.Bookkeeping.Batches.Observed.check_success
    invoice_hub.Bookkeeping.Batches.Settle.settle_items
    invoice_hub.Bookkeeping.Batches.Settle.settle_item
    invoice_hub.Bookkeeping.Batches.Settle.settle_importing
    invoice_hub.Bookkeeping.Batches.Settle.next_state
    invoice_hub.Bookkeeping.Batches.Settle.settle_open
    invoice_hub.Bookkeeping.Batches.Settle.check_newly_imported
finalized_ok = refl

finalized_eq : finalized ≡ ok finalized_value
finalized_eq = ok_value finalized _ finalized_ok

batch_found : lookup "b1" applied.batches ≡ some (batch_in applying)
unfolding lookup
batch_found = refl

applied_distinct : AreItemsDistinct (batch_in applying).items
applied_distinct = (tt, tt)

finalized_new : finalized_value.1.idempotent ≡ false
unfolding finalize_import_batch finalize mutate_voucher_status lookup
    invoice_hub.Bookkeeping.Batches.Finalize.finalize_from
    invoice_hub.Bookkeeping.Batches.Finalize.finalize_new
    invoice_hub.Bookkeeping.Batches.Observed.finalize_mode
    invoice_hub.Bookkeeping.Batches.Observed.read_observed invoice_hub.Prelude.Text.strip insert
    invoice_hub.Bookkeeping.Batches.Observed.check_evidence
    invoice_hub.Bookkeeping.Batches.Observed.check_success
    invoice_hub.Bookkeeping.Batches.Settle.settle_items
    invoice_hub.Bookkeeping.Batches.Settle.settle_item
    invoice_hub.Bookkeeping.Batches.Settle.settle_importing
    invoice_hub.Bookkeeping.Batches.Settle.next_state
    invoice_hub.Bookkeeping.Batches.Settle.settle_open
    invoice_hub.Bookkeeping.Batches.Settle.check_newly_imported
finalized_new = refl

finalized_reconciled : finalized_value.1.batch.state ≡ BatchState.reconciled
unfolding finalize_import_batch finalize mutate_voucher_status lookup
    invoice_hub.Bookkeeping.Batches.Finalize.finalize_from
    invoice_hub.Bookkeeping.Batches.Finalize.finalize_new
    invoice_hub.Bookkeeping.Batches.Observed.finalize_mode
    invoice_hub.Bookkeeping.Batches.Observed.read_observed invoice_hub.Prelude.Text.strip insert
    invoice_hub.Bookkeeping.Batches.Observed.check_evidence
    invoice_hub.Bookkeeping.Batches.Observed.check_success
    invoice_hub.Bookkeeping.Batches.Settle.settle_items
    invoice_hub.Bookkeeping.Batches.Settle.settle_item
    invoice_hub.Bookkeeping.Batches.Settle.settle_importing
    invoice_hub.Bookkeeping.Batches.Settle.next_state
    invoice_hub.Bookkeeping.Batches.Settle.settle_open
    invoice_hub.Bookkeeping.Batches.Settle.check_newly_imported
    invoice_hub.Bookkeeping.Batches.Finalize.finalized_batch new_receipt
    invoice_hub.Bookkeeping.Batches.Finalize.settled_batch_state
    invoice_hub.Bookkeeping.Batches.Observed.failure_is_proved
    invoice_hub.Bookkeeping.Batches.Settle.check_imported
    invoice_hub.Bookkeeping.Batches.Settle.settle_terminal settled_item
    invoice_hub.Bookkeeping.Status.write_store invoice_hub.Domain.States.state_text
    invoice_hub.Prelude.Text.lstrip invoice_hub.Prelude.Text.rstrip
finalized_reconciled = refl

finalize_import_batch-AllImported_example : AllImported finalized_value.1 finalized_value.0
finalize_import_batch-AllImported_example =
    finalize_import_batch-AllImported test_batch_host "b1" test_observation applied
      finalized_value.0 finalized_value.1 finalized_eq finalized_new finalized_reconciled

finalize_import_batch-IsSettled_example :
    IsSettled "b1" applied finalized_value.0 (batch_in applying) finalized_value.1
finalize_import_batch-IsSettled_example =
    finalize_import_batch-IsSettled test_batch_host "b1" test_observation applied finalized_value.0
      (batch_in applying) finalized_value.1 batch_found applied_distinct finalized_eq finalized_new

finalize_import_batch_again_example :
    finalize_import_batch test_batch_host "b1" test_observation finalized_value.0
    ≡ ok (finalized_value.0, record (finalized_value.1) { idempotent = true })
finalize_import_batch_again_example =
    finalize_import_batch_again test_batch_host test_batch_host "b1" test_observation applied
      finalized_value.0 finalized_value.1 refl finalized_eq

v0_found : lookup "v0" applied.items ≡ some (item_in imported)
unfolding lookup
v0_found = refl

finalize_import_batch-IsKnown_example :
    lookup "v0" finalized_value.0.items ≡ some (item_in imported)
finalize_import_batch-IsKnown_example =
    finalize_import_batch-IsKnown test_batch_host "b1" test_observation applied finalized_value.0
      finalized_value.1 "v0" (item_in imported) finalized_eq v0_found refl

abbrev imported_item : VoucherStatusItem
imported_item =
    settled_item test_batch_host "b1" "observation" imported
      (some (record {
        posting_key = "v1";
        observed_state = "imported";
        signature_hash = "signature";
        voucher_no = some "7";
      }))
      (item_in importing)

v1_imported : lookup "v1" finalized_value.0.items ≡ some imported_item
unfolding finalize_import_batch finalize lookup mutate_voucher_status
    invoice_hub.Bookkeeping.Batches.Finalize.finalize_from
    invoice_hub.Bookkeeping.Batches.Finalize.finalize_new
    invoice_hub.Bookkeeping.Batches.Observed.finalize_mode
    invoice_hub.Bookkeeping.Batches.Observed.read_observed invoice_hub.Prelude.Text.strip insert
    invoice_hub.Bookkeeping.Batches.Observed.check_evidence
    invoice_hub.Bookkeeping.Batches.Observed.check_success
    invoice_hub.Bookkeeping.Batches.Settle.settle_items
    invoice_hub.Bookkeeping.Batches.Settle.settle_item
    invoice_hub.Bookkeeping.Batches.Settle.settle_importing
    invoice_hub.Bookkeeping.Batches.Settle.next_state
    invoice_hub.Bookkeeping.Batches.Settle.settle_open
    invoice_hub.Bookkeeping.Batches.Settle.check_newly_imported
    invoice_hub.Bookkeeping.Status.write_store
    invoice_hub.Bookkeeping.Batches.Finalize.finalized_batch new_receipt
    invoice_hub.Bookkeeping.Batches.Finalize.settled_batch_state
    invoice_hub.Bookkeeping.Batches.Observed.failure_is_proved
    invoice_hub.Bookkeeping.Batches.Settle.check_imported
    invoice_hub.Bookkeeping.Batches.Settle.settle_terminal settled_item
    invoice_hub.Domain.States.state_text invoice_hub.Prelude.Text.lstrip
    invoice_hub.Prelude.Text.rstrip
v1_imported = refl

v1_status : imported_item.status ≡ imported
unfolding settled_item
v1_status = refl

finalize_import_batch-Imports_example :
    Imports test_observation "v1" imported_item applied finalized_value.1.batch.items
finalize_import_batch-Imports_example =
    finalize_import_batch-Imports test_batch_host "b1" test_observation applied finalized_value.0
      finalized_value.1 "v1" imported_item finalized_eq v1_imported v1_status
