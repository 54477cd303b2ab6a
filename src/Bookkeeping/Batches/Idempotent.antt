-- ===== src/Bookkeeping/Batches/Idempotent.antt =====
-- A finalize is idempotent.
use invoice_hub.Bookkeeping.Result.{not_found, ok, ok-injective, or_raise-eq-ok}
use invoice_hub.Bookkeeping.Status.Transactions.{mutate-eq-ok}
use invoice_hub.Prelude.Dict.{lookup, lookup-insert_self}
use invoice_hub.Bookkeeping.Batches.Inversion.{finalize_new-IsFinalized, IsFinalized}
use invoice_hub.Bookkeeping.Status.Store.{commit, needs_migration}
use invoice_hub.Prelude.{Option, String, false, none, refl, some, subst, sym, true, ◌≡◌}
use invoice_hub.Domain.{ImportBatch, Receipt}
use invoice_hub.Bookkeeping.Batches.Finalize.{
  Finalized, finalize, finalize_from, finalize_import_batch, finalized_batch,
}
use invoice_hub.Bookkeeping.Status.{Change, VoucherStatusStore, mutate_voucher_status, write_store}
use invoice_hub.Bookkeeping.Batches.Shared.{BatchHost, FinalizePayload}

-- A store in which the batch has a receipt of the observation.
record HasReceipt (batch_id observation_hash : String) (store : VoucherStatusStore)
    (done : Finalized) : Type 0 where
  fresh : needs_migration store ≡ false
  found : lookup batch_id store.batches ≡ some done.batch
  known : lookup observation_hash done.batch.observation_receipts ≡ some done.result

finalize-HasReceipt :
    (host : BatchHost) (batch_id : String) (payload : FinalizePayload) (store : VoucherStatusStore)
    (done : Finalized)
    → HasReceipt batch_id (host.observation_sha256 payload) store done
    → finalize_import_batch host batch_id payload store
      ≡ ok (store, record done { idempotent = true })
unfolding finalize_import_batch mutate_voucher_status finalize finalize_from
finalize-HasReceipt host batch_id payload store done r = rw r.fresh (rw r.found (rw r.known refl))

-- The store that a finalize on a new observation writes.
IsFinalized-HasReceipt :
    (host : BatchHost) (batch_id : String) (payload : FinalizePayload) (batch : ImportBatch)
    (current : VoucherStatusStore) (changed : Change × Finalized)
    → IsFinalized host batch_id payload batch current changed
    → let r = commit host.base current changed in
      HasReceipt batch_id (host.observation_sha256 payload) r.0 r.1
unfolding finalized_batch write_store
IsFinalized-HasReceipt host batch_id payload batch current changed f =
    subst
      (λ c.
        HasReceipt batch_id (host.observation_sha256 payload) (commit host.base current c).0
          (commit host.base current c).1)
      (sym f.change)
      (record {
        fresh = refl;
        found = lookup-insert_self batch_id _ current.batches;
        known = lookup-insert_self (host.observation_sha256 payload) _ batch.observation_receipts;
      })

finalize_from-HasReceipt :
    (host : BatchHost) (batch_id : String) (payload : FinalizePayload) (batch : ImportBatch)
    (current : VoucherStatusStore) (known : Option Receipt) (changed : Change × Finalized)
    → needs_migration current ≡ false
    → lookup batch_id current.batches ≡ some batch
    → lookup (host.observation_sha256 payload) batch.observation_receipts ≡ known
    → finalize_from host batch_id payload batch current known ≡ ok changed
    → let r = commit host.base current changed in
      HasReceipt batch_id (host.observation_sha256 payload) r.0 r.1
unfolding finalize_from
finalize_from-HasReceipt host batch_id payload batch current (some r) changed fresh found known h =
    subst
      (λ c.
        HasReceipt batch_id (host.observation_sha256 payload) (commit host.base current c).0
          (commit host.base current c).1)
      (ok-injective h) (record { fresh = fresh; found = found; known = known })
finalize_from-HasReceipt host batch_id payload batch current none changed fresh found known h =
    IsFinalized-HasReceipt host batch_id payload batch current changed
      (finalize_new-IsFinalized host batch_id payload batch current changed h)

-- A finalize that returned, called again with the same payload, at whatever time, returns the same
-- batch and the same receipt, says that the observation was known, and leaves the store as it is.
pub finalize_import_batch_again :
    (host again : BatchHost) (batch_id : String) (payload : FinalizePayload)
    (current after : VoucherStatusStore) (done : Finalized)
    → again.observation_sha256 payload ≡ host.observation_sha256 payload
    → finalize_import_batch host batch_id payload current ≡ ok (after, done)
    → finalize_import_batch again batch_id payload after
      ≡ ok (after, record done { idempotent = true })
unfolding finalize_import_batch finalize
finalize_import_batch_again host again batch_id payload current after done same_hash h =
    let (changed, fresh, _, made, committed) =
      mutate-eq-ok host.base (finalize host batch_id payload) none current h in
    let (batch, found, h₁) =
      or_raise-eq-ok (lookup batch_id current.batches) (not_found batch_id) _ made in
    let recorded =
      finalize_from-HasReceipt host batch_id payload batch current _ changed fresh found refl h₁ in
    finalize-HasReceipt again batch_id payload after done (
      subst (λ seen. HasReceipt batch_id seen after done) (sym same_hash)
        (subst (λ r. HasReceipt batch_id (host.observation_sha256 payload) r.0 r.1) committed
          recorded))
