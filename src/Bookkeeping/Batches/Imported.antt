-- ===== src/Bookkeeping/Batches/Imported.antt =====
-- What a finalize says of the vouchers of its batch.
use invoice_hub.Bookkeeping.Batches.Terminal.{settle_items-IsKnown}
use invoice_hub.Bookkeeping.Status.Transactions.{mutate-eq-ok}
use invoice_hub.Bookkeeping.Status.Store.{commit}
use invoice_hub.Bookkeeping.Batches.Settle.{
  Settled, is_imported, is_terminal, kept, put_settled, settle_item, settle_items, settled_status,
  stored,
}
use invoice_hub.Bookkeeping.Batches.Inversion.{IsFinalized, finalize_new-IsFinalized}
use invoice_hub.Bookkeeping.Batches.Finalize.{
  Finalized, finalize, finalize_from, finalize_import_batch, finalized_batch, new_receipt,
  settled_batch_state,
}
use invoice_hub.Prelude.Dict.{Dict, lookup, lookup-insert_self}
use invoice_hub.Bookkeeping.Status.{Change, Host, VoucherStatusStore, replaced, same, write_store}
use invoice_hub.Domain.{
  BatchState, ImportBatch, ImportBatchItem, Outcome, Receipt, VoucherState, VoucherStatusItem,
  imported,
}
use invoice_hub.Bookkeeping.Batches.Shared.{BatchHost, FinalizePayload, ObservedItem}
use invoice_hub.Prelude.{
  All, Bool, List, Option, String, [], all, ap, arith, false, if◌then◌else◌, none, refl, some,
  subst, sym, true, true_false, ◌&&◌, ◌∙◌, ◌∷◌, ◌≡◌,
}
use invoice_hub.Bookkeeping.Result.{>>=-eq-ok, not_found, ok, ok-injective, or_raise-eq-ok}

-- The item at `key` is imported.
abbrev pub IsImportedAt : String → Dict VoucherStatusItem → Type 0
IsImportedAt key items =
    (item : VoucherStatusItem) × (lookup key items ≡ some item) × (item.status ≡ imported)

is_imported→eq : (s : VoucherState) → is_imported s ≡ true → s ≡ imported
is_imported→eq imported h = refl
is_imported→eq _ h = ground arith

is_imported-is_terminal : (s : VoucherState) → is_imported s ≡ true → is_terminal s ≡ true
is_imported-is_terminal imported h = refl
is_imported-is_terminal _ h = ground arith

pub both_true : (a b : Bool) → a && b ≡ true → (a ≡ true) × (b ≡ true)
both_true a b h = (ground arith, ground arith)

-- After a round the item of the round has the state that the round reports.
pub put_settled_known :
    (key : String) (item : VoucherStatusItem) (round : Settled) (items : Dict VoucherStatusItem)
    → lookup key items ≡ some item
    → (known : VoucherStatusItem) × (lookup key (put_settled key round items) ≡ some known)
      × (known.status ≡ settled_status item round)
put_settled_known key item kept items found = (item, found, refl)
put_settled_known key item (stored updated) items found =
    (updated, lookup-insert_self key updated items, refl)

module _ (host : BatchHost) (batch_id observation_hash : String) (outcome : Outcome) where
  settle_items-all_imported :
      (entries : Dict ObservedItem) (bs : List ImportBatchItem) (items : Dict VoucherStatusItem)
      (settled : Dict VoucherStatusItem × List VoucherState)
      → settle_items host batch_id observation_hash outcome entries bs items ≡ ok settled
      → all is_imported settled.1 ≡ true
      → All (λ b. IsImportedAt b.posting_key settled.0) bs
  unfolding settle_items
  settle_items-all_imported entries [] items settled h t = tt
  settle_items-all_imported entries (b ∷ bs) items settled h t =
      let (item, found, h₁) =
        or_raise-eq-ok (lookup b.posting_key items) (not_found b.posting_key) _ h in
      let (round, made, h₂) =
        >>=-eq-ok
          (settle_item host batch_id observation_hash outcome b item (lookup b.posting_key entries))
          _ h₁ in
      let (rest, settles, h₃) =
        >>=-eq-ok
          (settle_items host batch_id observation_hash outcome entries bs
            (put_settled b.posting_key round items))
          _ h₂ in
      let result = ok-injective h₃ in
      let (first, others) =
        both_true (is_imported (settled_status item round)) (all is_imported rest.1)
          (ap (λ r. all is_imported r.1) result ∙ t) in
      let (known, there, status) = put_settled_known b.posting_key item round items found in
      let first_known = ap is_imported status ∙ first in
      let (stays, _) =
        settle_items-IsKnown host batch_id observation_hash outcome entries bs
          (put_settled b.posting_key round items) b.posting_key known rest
          (there, is_imported-is_terminal known.status first_known) settles in
      subst (λ r. All (λ c. IsImportedAt c.posting_key r.0) (b ∷ bs)) result
        (
          (known, stays, is_imported→eq known.status first_known),
          settle_items-all_imported entries bs (put_settled b.posting_key round items) rest settles
              others,
        )

reconciled_only :
    (a b c : Bool)
    → (if a
        then BatchState.reconciled
        else if b
        then BatchState.failed_before_commit
        else if c
        then BatchState.unknown
        else BatchState.partial)
      ≡ BatchState.reconciled
    → a ≡ true
reconciled_only true b c h = refl
reconciled_only false true c h = cc
reconciled_only false false true h = cc
reconciled_only false false false h = cc

-- All the items of the batch of a result are imported in a store.
abbrev pub AllImported : Finalized → VoucherStatusStore → Type 0
AllImported done store = All (λ b. IsImportedAt b.posting_key store.items) done.batch.items

IsFinalized-AllImported :
    (host : BatchHost) (batch_id : String) (payload : FinalizePayload) (batch : ImportBatch)
    (current : VoucherStatusStore) (changed : Change × Finalized)
    → IsFinalized host batch_id payload batch current changed
    → changed.1.batch.state ≡ BatchState.reconciled
    → AllImported changed.1 (commit host.base current changed).0
unfolding finalized_batch write_store new_receipt settled_batch_state
IsFinalized-AllImported host batch_id payload batch current changed f h =
    subst (λ c. AllImported c.1 (commit host.base current c).0) (sym f.change)
      (settle_items-all_imported host batch_id (host.observation_sha256 payload) f.outcome f.entries
        batch.items current.items f.settled f.settles
        (reconciled_only _ _ _ (ap (λ c. c.1.batch.state) (sym f.change) ∙ h)))

finalize_from-AllImported :
    (host : BatchHost) (batch_id : String) (payload : FinalizePayload) (batch : ImportBatch)
    (current : VoucherStatusStore) (recorded : Option Receipt) (changed : Change × Finalized)
    → finalize_from host batch_id payload batch current recorded ≡ ok changed
    → changed.1.idempotent ≡ false
    → changed.1.batch.state ≡ BatchState.reconciled
    → AllImported changed.1 (commit host.base current changed).0
unfolding finalize_from
finalize_from-AllImported host batch_id payload batch current (some r) changed h new state =
    true_false (ap (λ c. c.1.idempotent) (ok-injective h) ∙ new)
finalize_from-AllImported host batch_id payload batch current none changed h new state =
    IsFinalized-AllImported host batch_id payload batch current changed
      (finalize_new-IsFinalized host batch_id payload batch current changed h) state

-- A commit hands on the result of the mutator.
pub commit_result :
    (host : Host) (current : VoucherStatusStore) (changed : Change × Finalized)
    → (commit host current changed).1 ≡ changed.1
commit_result host current (same, d) = refl
commit_result host current (replaced items batches, d) = refl

commit-AllImported :
    (host : Host) (current : VoucherStatusStore) (changed : Change × Finalized)
    → AllImported changed.1 (commit host current changed).0
    → AllImported (commit host current changed).1 (commit host current changed).0
commit-AllImported host current (same, d) a = a
commit-AllImported host current (replaced items batches, d) a = a

-- Where a finalize on a new observation calls its batch reconciled, each voucher of that batch is
-- imported in the store that it writes.
pub finalize_import_batch-AllImported :
    (host : BatchHost) (batch_id : String) (payload : FinalizePayload)
    (current after : VoucherStatusStore) (done : Finalized)
    → finalize_import_batch host batch_id payload current ≡ ok (after, done)
    → done.idempotent ≡ false
    → done.batch.state ≡ BatchState.reconciled
    → AllImported done after
unfolding finalize_import_batch finalize
finalize_import_batch-AllImported host batch_id payload current after done h new state =
    let (changed, fresh, _, made, committed) =
      mutate-eq-ok host.base (finalize host batch_id payload) none current h in
    let (batch, _, h₁) =
      or_raise-eq-ok (lookup batch_id current.batches) (not_found batch_id) _ made in
    let result = sym (commit_result host.base current changed) ∙ ap (λ r. r.1) committed in
    subst (λ r. AllImported r.1 r.0) committed
      (commit-AllImported host.base current changed (
        finalize_from-AllImported host batch_id payload batch current _ changed h₁
          (ap (λ d. d.idempotent) result ∙ new) (ap (λ d. d.batch.state) result ∙ state)))
