-- ===== src/Bookkeeping/Batches/Finalize.antt =====
-- `finalize_import_batch` as a whole.
use invoice_hub.Prelude.Text.{or_else}
use invoice_hub.Bookkeeping.Batches.Settle.{is_imported, settle_items}
use invoice_hub.Prelude.Dict.{insert, keys, lookup}
use invoice_hub.Bookkeeping.Batches.Observed.{
  batch_keys, check_evidence, finalize_mode, outcome_of, read_observed, subset,
}
use invoice_hub.Bookkeeping.Result.{
  Result, bad_outcome, items_not_list, not_found, ok, or_raise, raise_if, unexpected_item, ◌>>=◌,
  ◌>>◌,
}
use invoice_hub.Bookkeeping.Status.{
  Change, VoucherStatusStore, mutate_voucher_status, replaced, same,
}
use invoice_hub.Prelude.{
  Bool, List, Option, String, [], all, any, false, if◌then◌else◌, none, not, some, true, ◌&&◌, ◌++◌,
  ◌+◌, ◌∷◌,
}
use invoice_hub.Domain.{
  BatchState, ImportBatch, Mode, Outcome, Receipt, VoucherState, failed_before_commit,
  import_failed_confirmed, import_unknown, partial, receipt, reconciled, state_eq, unknown,
}
use invoice_hub.Bookkeeping.Batches.Shared.{BatchHost, FinalizePayload, ObservedItem, batch_audit}

-- `len(set(states)) == 1`
abbrev pub one_state : List VoucherState → Bool
one_state [] = false
one_state (s ∷ ss) = all (state_eq s) ss

-- `batch_state`
unfoldable pub settled_batch_state : List VoucherState → BatchState
settled_batch_state states =
    if all is_imported states
    then reconciled
    else if all (state_eq import_failed_confirmed) states
    then failed_before_commit
    else if any (state_eq import_unknown) states && one_state states
    then unknown
    else partial

unfoldable pub finalized_batch : BatchHost → String → Receipt → ImportBatch → ImportBatch
finalized_batch host observation_hash r batch = record batch {
  revision = batch.revision + 1;
  state = r.state;
  finalized_at = r.recorded_at;
  observation_hash = observation_hash;
  finalize_result = some r;
  observation_receipts = insert observation_hash r batch.observation_receipts;
  audit = batch.audit ++ batch_audit host "finalized" (receipt r) ∷ [];
}

unfoldable pub new_receipt :
    BatchHost → String → String → Outcome → Mode → List VoucherState → Receipt
new_receipt host batch_id observation_hash outcome mode states = record {
  batch_id = batch_id;
  observation_hash = observation_hash;
  outcome = outcome;
  mode = mode;
  state = settled_batch_state states;
  item_states = states;
  recorded_at = host.base.now;
}

-- The result of a call: the batch, whether the observation was known, and its receipt.
pub record Finalized : Type 0 where
  pub batch : ImportBatch
  pub idempotent : Bool
  pub result : Receipt

-- `payload.get("items") or []`, where that is a list
abbrev pub raw_items : FinalizePayload → Result (List (Option ObservedItem))
raw_items payload = or_raise payload.items items_not_list

-- The mutator `finalize` on an observation that is new.
unfoldable pub finalize_new :
    BatchHost
    → String
    → FinalizePayload
    → ImportBatch
    → VoucherStatusStore
    → Result (Change × Finalized)
finalize_new host batch_id payload batch current = do
  let seen = host.observation_sha256 payload
  mode ← finalize_mode batch.state (or_else payload.mode "apply")
  outcome ← or_raise (outcome_of payload.outcome) bad_outcome
  raws ← raw_items payload
  entries ← read_observed raws []
  let expected = batch_keys batch.items
  raise_if (not (subset (keys entries) expected)) unexpected_item
  check_evidence batch.state mode outcome payload entries expected
  settled ← settle_items host batch_id seen outcome entries batch.items current.items
  let r = new_receipt host batch_id seen outcome mode settled.1
  let updated = finalized_batch host seen r batch
  ok (
    replaced settled.0 (insert batch_id updated current.batches),
    record { batch = updated; idempotent = false; result = r },
  )

-- The rest of the mutator, by what the batch records of the observation.
unfoldable pub finalize_from :
    BatchHost
    → String
    → FinalizePayload
    → ImportBatch
    → VoucherStatusStore
    → Option Receipt
    → Result (Change × Finalized)
finalize_from host batch_id payload batch current (some r) =
    ok (same, record { batch = batch; idempotent = true; result = r })
finalize_from host batch_id payload batch current none =
    finalize_new host batch_id payload batch current

-- The mutator `finalize`.
unfoldable pub finalize :
    BatchHost → String → FinalizePayload → VoucherStatusStore → Result (Change × Finalized)
finalize host batch_id payload current = do
  batch ← or_raise (lookup batch_id current.batches) (not_found batch_id)
  finalize_from host batch_id payload batch current
      (lookup (host.observation_sha256 payload) batch.observation_receipts)

unfoldable pub finalize_import_batch :
    BatchHost
    → String
    → FinalizePayload
    → VoucherStatusStore
    → Result (VoucherStatusStore × Finalized)
finalize_import_batch host batch_id payload =
    mutate_voucher_status host.base (finalize host batch_id payload) none
