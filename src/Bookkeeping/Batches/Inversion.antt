-- ===== src/Bookkeeping/Batches/Inversion.antt =====
-- What a finalize that returned went through.
use invoice_hub.Bookkeeping.Batches.Settle.{settle_items}
use invoice_hub.Prelude.Text.{or_else}
use invoice_hub.Bookkeeping.Batches.Observed.{
  batch_keys, check_evidence, finalize_mode, outcome_of, read_observed, subset,
}
use invoice_hub.Prelude.{List, String, [], false, not, sym, ◌≡◌, Option, some}
use invoice_hub.Domain.{ImportBatch, Mode, Outcome, VoucherState, VoucherStatusItem}
use invoice_hub.Bookkeeping.Batches.Finalize.{Finalized, finalize_new, finalized_batch, new_receipt}
use invoice_hub.Prelude.Dict.{Dict, insert, keys}
use invoice_hub.Bookkeeping.Status.{Change, VoucherStatusStore, replaced}
use invoice_hub.Bookkeeping.Batches.Shared.{BatchHost, FinalizePayload, ObservedItem}
use invoice_hub.Bookkeeping.Result.{
  >>=-eq-ok, bad_outcome, ok, ok-injective, or_raise-eq-ok, raise_if-eq-ok, unexpected_item,
  items_not_list,
}

-- The steps of a finalize on a new observation.
pub record IsFinalized (host : BatchHost) (batch_id : String) (payload : FinalizePayload)
    (batch : ImportBatch) (current : VoucherStatusStore) (changed : Change × Finalized)
    : Type 0 where
  pub mode : Mode
  pub outcome : Outcome
  pub raws : List (Option ObservedItem)
  pub entries : Dict ObservedItem
  pub settled : Dict VoucherStatusItem × List VoucherState
  pub listed : payload.items ≡ some raws
  pub read : read_observed raws [] ≡ ok entries
  pub moded : finalize_mode batch.state (or_else payload.mode "apply") ≡ ok mode
  pub evidence :
      check_evidence batch.state mode outcome payload entries (batch_keys batch.items) ≡ ok tt
  pub settles :
      settle_items host batch_id
        (host.observation_sha256 payload)
        outcome
        entries
        batch.items
        current.items
      ≡ ok settled
  pub change :
      let r = new_receipt host batch_id (host.observation_sha256 payload) outcome mode settled.1 in
      let updated = finalized_batch host (host.observation_sha256 payload) r batch in
      changed ≡ (
        replaced settled.0 (insert batch_id updated current.batches),
        record { batch = updated; idempotent = false; result = r },
      )

pub finalize_new-IsFinalized :
    (host : BatchHost) (batch_id : String) (payload : FinalizePayload) (batch : ImportBatch)
    (current : VoucherStatusStore) (changed : Change × Finalized)
    → finalize_new host batch_id payload batch current ≡ ok changed
    → IsFinalized host batch_id payload batch current changed
unfolding finalize_new
finalize_new-IsFinalized host batch_id payload batch current changed h =
    let (mode, moded, h₁) =
      >>=-eq-ok (finalize_mode batch.state (or_else payload.mode "apply")) _ h in
    let (outcome, _, h₂) = or_raise-eq-ok (outcome_of payload.outcome) bad_outcome _ h₁ in
    let (raws, listed, h₃) = or_raise-eq-ok payload.items items_not_list _ h₂ in
    let (entries, read, h₄) = >>=-eq-ok (read_observed raws []) _ h₃ in
    let (_, h₅) =
      raise_if-eq-ok (not (subset (keys entries) (batch_keys batch.items))) unexpected_item _ h₄ in
    let (_, checked, h₆) =
      >>=-eq-ok (check_evidence batch.state mode outcome payload entries (batch_keys batch.items)) _
        h₅ in
    let (settled, settles, h₇) =
      >>=-eq-ok (settle_items host batch_id _ outcome entries _ _) _ h₆ in
    record {
      mode = mode;
      outcome = outcome;
      raws = raws;
      listed = listed;
      read = read;
      entries = entries;
      settled = settled;
      moded = moded;
      evidence = checked;
      settles = settles;
      change = sym (ok-injective h₇);
    }
