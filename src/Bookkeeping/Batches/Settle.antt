-- ===== src/Bookkeeping/Batches/Settle.antt =====
-- The second half of `finalize_import_batch`: the loop over the items of the batch.
use invoice_hub.Bookkeeping.Batches.Observed.{observed_state_of}
use invoice_hub.Prelude.Text.{is_empty_text, or_else, strip}
use invoice_hub.Bookkeeping.Status.Store.{given_or}
use invoice_hub.Bookkeeping.Status.Transition.{arrow}
use invoice_hub.Bookkeeping.Result.{
  Result, bad_observed_state, item_not_importing, not_found, ok, or_raise, raise_if,
  signature_mismatch, terminal_rewritten, voucher_no_mismatch, voucher_no_missing, ◌>>=◌, ◌>>◌,
}
use invoice_hub.Domain.{
  ImportBatchItem, Outcome, VoucherState, VoucherStatusItem, confirmed_success,
  failed_before_commit, fields, import_failed_confirmed, import_unknown, imported, importing,
  partial, state_eq, unknown,
}
use invoice_hub.Prelude.Dict.{Dict, insert, lookup}
use invoice_hub.Prelude.{
  Bool, List, Option, String, [], false, if◌then◌else◌, is_some, none, not, some, str_eq, true,
  ◌&&◌, ◌++◌, ◌+◌, ◌||◌, ◌∷◌,
}
use invoice_hub.Bookkeeping.Batches.Shared.{BatchHost, ObservedItem, batch_audit}

-- `item.status in {"importing", "import_unknown", "import_failed_confirmed", "imported"}`
abbrev pub is_importing : VoucherState → Bool
is_importing importing = true
is_importing import_unknown = true
is_importing import_failed_confirmed = true
is_importing imported = true
is_importing _ = false

-- `item.status in {"imported", "import_failed_confirmed"}`
abbrev pub is_terminal : VoucherState → Bool
is_terminal imported = true
is_terminal import_failed_confirmed = true
is_terminal _ = false

-- `str(observed_item.get("observed_state") or "import_unknown")`
abbrev pub observed_text : Option ObservedItem → String
observed_text none = "import_unknown"
observed_text (some o) = or_else o.observed_state "import_unknown"

-- `next_state`
unfoldable pub next_state : Outcome → Option ObservedItem → Result VoucherState
next_state confirmed_success o = ok imported
next_state failed_before_commit o = ok import_failed_confirmed
next_state unknown o = ok import_unknown
next_state partial o = or_raise (observed_state_of (observed_text o)) bad_observed_state

-- `str(observed_item.get("signature_hash") or "")`
abbrev pub signature_of : Option ObservedItem → String
signature_of none = ""
signature_of (some o) = o.signature_hash

-- `observed_item.get("voucher_no")`
abbrev pub voucher_no_of : Option ObservedItem → Option String
voucher_no_of none = none
voucher_no_of (some o) = o.voucher_no

-- `str(observed_item.get("voucher_no") or "").strip()`
abbrev pub observed_no : Option ObservedItem → String
observed_no o = strip (given_or (voucher_no_of o) "")

abbrev pub is_imported : VoucherState → Bool
is_imported imported = true
is_imported _ = false

-- What an observation of an item that is imported already must agree with.
unfoldable pub check_imported :
    ImportBatchItem → VoucherStatusItem → Option ObservedItem → Result (Unit {0})
check_imported b item o = do
  raise_if (not (str_eq (signature_of o) b.signature_hash)) signature_mismatch
  raise_if
      (is_empty_text (observed_no o)
        || not (is_empty_text item.voucher_no) && not (str_eq (observed_no o) item.voucher_no))
      voucher_no_mismatch

-- What an observation must bring for an item to become imported.
unfoldable pub check_newly_imported : ImportBatchItem → Option ObservedItem → Result (Unit {0})
check_newly_imported b o = do
  raise_if (not (str_eq (signature_of o) b.signature_hash)) signature_mismatch
  raise_if (is_empty_text (observed_no o)) voucher_no_missing

unfoldable pub settled_item :
    BatchHost
    → String
    → String
    → VoucherState
    → Option ObservedItem
    → VoucherStatusItem
    → VoucherStatusItem
settled_item host batch_id observation_hash target o item = record item {
  status = target;
  item_revision = item.item_revision + 1;
  last_observation_hash = observation_hash;
  audit =
      item.audit
      ++ batch_audit host (arrow item.status target)
          (fields (("batch_id", batch_id) ∷ ("observation_hash", observation_hash) ∷ []))
        ∷ [];
  voucher_no = given_or (voucher_no_of o) item.voucher_no;
  imported_at = if is_imported target then host.base.now else item.imported_at;
}

-- What a round does: it leaves the item, which keeps its state, or it stores the item anew.
pub data Settled : Type 0 where
  kept : Settled
  stored : VoucherStatusItem → Settled

-- A terminal item: an observation must repeat its state.
unfoldable pub settle_terminal :
    VoucherState → ImportBatchItem → VoucherStatusItem → Option ObservedItem → Result Settled
settle_terminal target b item o = do
  raise_if (not (state_eq target item.status)) terminal_rewritten
  if is_imported item.status then check_imported b item o else ok tt
  ok kept

-- An item that is not terminal yet.
unfoldable pub settle_open :
    BatchHost
    → String
    → String
    → VoucherState
    → ImportBatchItem
    → VoucherStatusItem
    → Option ObservedItem
    → Result Settled
settle_open host batch_id observation_hash target b item o = do
  if is_imported target then check_newly_imported b o else ok tt
  ok (stored (settled_item host batch_id observation_hash target o item))

-- A round on an item that this import may settle.
unfoldable pub settle_importing :
    BatchHost
    → String
    → String
    → Outcome
    → ImportBatchItem
    → VoucherStatusItem
    → Option ObservedItem
    → Result Settled
settle_importing host batch_id observation_hash outcome b item o =
    if is_terminal item.status && not (is_some o)
    then ok kept
    else next_state outcome o >>= λ target.
        if is_terminal item.status
        then settle_terminal target b item o
        else settle_open host batch_id observation_hash target b item o

-- One round of the loop.
unfoldable pub settle_item :
    BatchHost
    → String
    → String
    → Outcome
    → ImportBatchItem
    → VoucherStatusItem
    → Option ObservedItem
    → Result Settled
settle_item host batch_id observation_hash outcome b item o = do
  raise_if (not (is_importing item.status)) item_not_importing
  settle_importing host batch_id observation_hash outcome b item o

abbrev pub settled_status : VoucherStatusItem → Settled → VoucherState
settled_status item kept = item.status
settled_status item (stored updated) = updated.status

abbrev pub put_settled : String → Settled → Dict VoucherStatusItem → Dict VoucherStatusItem
put_settled key kept items = items
put_settled key (stored updated) items = insert key updated items

-- The loop: the items that it leaves and `resulting_states`.
unfoldable pub settle_items :
    BatchHost
    → String
    → String
    → Outcome
    → Dict ObservedItem
    → List ImportBatchItem
    → Dict VoucherStatusItem
    → Result (Dict VoucherStatusItem × List VoucherState)
settle_items host batch_id observation_hash outcome entries [] items = ok (items, [])
settle_items host batch_id observation_hash outcome entries (b ∷ bs) items = do
  item ← or_raise (lookup b.posting_key items) (not_found b.posting_key)
  settled ← settle_item host batch_id observation_hash outcome b item (lookup b.posting_key entries)
  rest ←
      settle_items host batch_id observation_hash outcome entries bs
        (put_settled b.posting_key settled items)
  ok (rest.0, settled_status item settled ∷ rest.1)
