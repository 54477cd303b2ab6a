-- ===== src/Bookkeeping/Batches/Begin.antt =====
-- `begin_import_batch`.
use invoice_hub.Prelude.Text.{is_blank, strip}
use invoice_hub.Bookkeeping.Result.{
  Result, authorization_incomplete, authorization_unbound, item_not_exported, not_found, ok,
  or_raise, raise_if, wrong_batch_state, ◌>>=◌, ◌>>◌,
}
use invoice_hub.Prelude.Dict.{Dict, insert, lookup}
use invoice_hub.Bookkeeping.Status.{Change, VoucherStatusStore, mutate_voucher_status, replaced}
use invoice_hub.Prelude.{
  Bool, List, String, [], false, none, not, str_eq, true, ◌&&◌, ◌++◌, ◌+◌, ◌||◌, ◌∷◌,
}
use invoice_hub.Domain.{
  BatchState, ImportBatch, ImportBatchItem, VoucherStatusItem, applying, awaiting_authorization,
  exported, fields, importing, state_eq,
}
use invoice_hub.Bookkeeping.Batches.Shared.{
  Authorization, BatchHost, batch_audit, verified_batch_file,
}

-- `actual == expected`
unfoldable pub is_bound : Authorization → ImportBatch → Bool
is_bound a batch =
    str_eq a.batch_id batch.batch_id
    && (str_eq a.file_sha256 batch.file_sha256
        && (str_eq a.ledger_name batch.ledger_name && str_eq a.period batch.period))

-- The authorization as it is hashed.
abbrev pub stripped_authorization : Authorization → Authorization
stripped_authorization a = record a {
  command_id = strip a.command_id;
  authorized_by = strip a.authorized_by;
}

unfoldable pub importing_item : BatchHost → String → String → VoucherStatusItem → VoucherStatusItem
importing_item host batch_id authorization_hash item = record item {
  status = importing;
  item_revision = item.item_revision + 1;
  audit =
      item.audit
      ++ batch_audit host "exported->importing"
          (fields (("batch_id", batch_id) ∷ ("authorization_hash", authorization_hash) ∷ []))
        ∷ [];
}

-- The loop of `begin` over the items of the batch.
unfoldable pub import_items :
    BatchHost
    → String
    → String
    → List ImportBatchItem
    → Dict VoucherStatusItem
    → Result (Dict VoucherStatusItem)
import_items host batch_id authorization_hash [] items = ok items
import_items host batch_id authorization_hash (b ∷ bs) items = do
  item ← or_raise (lookup b.posting_key items) (not_found b.posting_key)
  raise_if (not (state_eq item.status exported) || not (str_eq item.batch_id batch_id))
      item_not_exported
  import_items host batch_id authorization_hash bs
      (insert b.posting_key (importing_item host batch_id authorization_hash item) items)

unfoldable pub applying_batch : BatchHost → String → ImportBatch → ImportBatch
applying_batch host authorization_hash batch = record batch {
  revision = batch.revision + 1;
  state = applying;
  authorized_at = host.base.now;
  authorization_hash = authorization_hash;
  audit =
      batch.audit
      ++ batch_audit host "authorized_and_applying"
          (fields (("authorization_hash", authorization_hash) ∷ []))
        ∷ [];
}

abbrev pub is_awaiting : BatchState → Bool
is_awaiting awaiting_authorization = true
is_awaiting _ = false

-- The mutator `begin`.
unfoldable pub begin :
    BatchHost → String → Authorization → VoucherStatusStore → Result (Change × ImportBatch)
begin host batch_id authorization current = do
  batch ← or_raise (lookup batch_id current.batches) (not_found batch_id)
  raise_if (not (is_awaiting batch.state)) wrong_batch_state
  verified_batch_file host batch
  raise_if (not (is_bound authorization batch)) authorization_unbound
  raise_if (is_blank authorization.command_id || is_blank authorization.authorized_by)
      authorization_incomplete
  let authorization_hash = host.authorization_sha256 (stripped_authorization authorization)
  items ← import_items host batch_id authorization_hash batch.items current.items
  let updated = applying_batch host authorization_hash batch
  ok (replaced items (insert batch_id updated current.batches), updated)

unfoldable pub begin_import_batch :
    BatchHost
    → String
    → Authorization
    → VoucherStatusStore
    → Result (VoucherStatusStore × ImportBatch)
begin_import_batch host batch_id authorization =
    mutate_voucher_status host.base (begin host batch_id authorization) none
