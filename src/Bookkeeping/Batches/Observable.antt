-- ===== src/Bookkeeping/Batches/Observable.antt =====
-- What a finalize on a new observation keeps of its batch, and the states it leaves.
use invoice_hub.Bookkeeping.Batches.Results.{IsResult, settled_batch_state-IsResult}
use invoice_hub.Bookkeeping.Batches.Imported.{put_settled_known}
use invoice_hub.Bookkeeping.Batches.Settle.{
  Settled, kept, put_settled, settle_item, settle_items, stored,
}
use invoice_hub.Bookkeeping.Result.{not_found, ok, ok-injective, or_raise-eq-ok, >>=-eq-ok}
use invoice_hub.Bookkeeping.Status.Transactions.{mutate-eq-ok}
use invoice_hub.Prelude.Dict.{lookup, Dict, lookup-insert}
use invoice_hub.Bookkeeping.Batches.Inversion.{finalize_new-IsFinalized}
use invoice_hub.Bookkeeping.Status.Store.{commit}
use invoice_hub.Prelude.{
  Option, String, ap, false, none, refl, some, sym, true_false, ◌∙◌, ◌≡◌, All, List, [],
  some-injective, str_eq, subst, ◌∷◌,
}
use invoice_hub.Domain.{
  ImportBatch, Receipt, ImportBatchItem, Outcome, VoucherState, VoucherStatusItem,
}
use invoice_hub.Bookkeeping.Batches.Immutable.{
  HasAdvanced, finalize_mode-is_observable, finalized_batch-IsAdvanced, stored_batch, is_observable,
}
use invoice_hub.Bookkeeping.Batches.Finalize.{
  Finalized, finalize, finalize_from, finalize_import_batch, new_receipt, settled_batch_state,
}
use invoice_hub.Bookkeeping.Status.{Change, VoucherStatusStore, write_store}
use invoice_hub.Bookkeeping.Batches.Shared.{BatchHost, FinalizePayload, ObservedItem}

-- The items of a batch have the states of a list, one each, in order.
abbrev pub HasStates : Dict VoucherStatusItem → List ImportBatchItem → List VoucherState → Type 0
HasStates items [] [] = Unit
HasStates items (b ∷ bs) (s ∷ states) =
    ((item : VoucherStatusItem) × (lookup b.posting_key items ≡ some item) × (item.status ≡ s))
    × HasStates items bs states
HasStates items _ _ = ⊥

-- No item of a batch has the posting key `j`.
abbrev pub HasNone : String → List ImportBatchItem → Type 0
HasNone j bs = All (λ b. str_eq b.posting_key j ≡ false) bs

-- No two items of a batch have the same posting key.
abbrev pub AreItemsDistinct : List ImportBatchItem → Type 0
AreItemsDistinct [] = Unit
AreItemsDistinct (b ∷ bs) = HasNone b.posting_key bs × AreItemsDistinct bs

put_settled_other :
    (key j : String) (round : Settled) (items : Dict VoucherStatusItem)
    → str_eq key j ≡ false
    → lookup j (put_settled key round items) ≡ lookup j items
put_settled_other key j kept items e = refl
put_settled_other key j (stored updated) items e =
    rw (lookup-insert j key updated items) (rw e refl)

module _ (host : BatchHost) (batch_id observation_hash : String) (outcome : Outcome) where
  -- The loop leaves every item alone that is not of the batch.
  settle_items_other :
      (entries : Dict ObservedItem) (bs : List ImportBatchItem) (items : Dict VoucherStatusItem)
      (settled : Dict VoucherStatusItem × List VoucherState) (j : String)
      → HasNone j bs
      → settle_items host batch_id observation_hash outcome entries bs items ≡ ok settled
      → lookup j settled.0 ≡ lookup j items
  unfolding settle_items
  settle_items_other entries [] items settled j none_of h =
      ap (λ r. lookup j r.0) (sym (ok-injective h))
  settle_items_other entries (b ∷ bs) items settled j (apart, others) h =
      let (item, _, h₁) =
        or_raise-eq-ok (lookup b.posting_key items) (not_found b.posting_key) _ h in
      let (round, _, h₂) =
        >>=-eq-ok
          (settle_item host batch_id observation_hash outcome b item (lookup b.posting_key entries))
          _ h₁ in
      let (rest, settles, h₃) =
        >>=-eq-ok
          (settle_items host batch_id observation_hash outcome entries bs
            (put_settled b.posting_key round items))
          _ h₂ in
      ap (λ r. lookup j r.0) (sym (ok-injective h₃))
      ∙ settle_items_other entries bs (put_settled b.posting_key round items) rest j others settles
      ∙ put_settled_other b.posting_key j round items apart

  -- The states that the loop reports are those of the items that it leaves.
  settle_items-HasStates :
      (entries : Dict ObservedItem) (bs : List ImportBatchItem) (items : Dict VoucherStatusItem)
      (settled : Dict VoucherStatusItem × List VoucherState)
      → AreItemsDistinct bs
      → settle_items host batch_id observation_hash outcome entries bs items ≡ ok settled
      → HasStates settled.0 bs settled.1
  unfolding settle_items
  settle_items-HasStates entries [] items settled distinct h =
      subst (λ r. HasStates r.0 [] r.1) (ok-injective h) tt
  settle_items-HasStates entries (b ∷ bs) items settled (apart, distinct) h =
      let (item, found, h₁) =
        or_raise-eq-ok (lookup b.posting_key items) (not_found b.posting_key) _ h in
      let (round, _, h₂) =
        >>=-eq-ok
          (settle_item host batch_id observation_hash outcome b item (lookup b.posting_key entries))
          _ h₁ in
      let (rest, settles, h₃) =
        >>=-eq-ok
          (settle_items host batch_id observation_hash outcome entries bs
            (put_settled b.posting_key round items))
          _ h₂ in
      let (known, there, status) = put_settled_known b.posting_key item round items found in
      subst (λ r. HasStates r.0 (b ∷ bs) r.1) (ok-injective h₃)
        (
          (
            known,
            settle_items_other entries bs (put_settled b.posting_key round items) rest b.posting_key
                  apart settles
                ∙ there,
            status,
          ),
          settle_items-HasStates entries bs (put_settled b.posting_key round items) rest distinct
              settles,
        )

-- What a finalize on a new observation has done.
abbrev pub IsSettled :
    String → VoucherStatusStore → VoucherStatusStore → ImportBatch → Finalized → Type 0
IsSettled batch_id current after before done =
    HasAdvanced is_observable done.result.state batch_id current after before done.batch
    × HasStates after.items before.items done.result.item_states
    × IsResult done.result.item_states done.result.state

finalize_from-IsSettled :
    (host : BatchHost) (batch_id : String) (payload : FinalizePayload) (batch : ImportBatch)
    (current after : VoucherStatusStore) (recorded : Option Receipt) (changed : Change × Finalized)
    (done : Finalized)
    → lookup batch_id current.batches ≡ some batch
    → AreItemsDistinct batch.items
    → finalize_from host batch_id payload batch current recorded ≡ ok changed
    → commit host.base current changed ≡ (after, done)
    → done.idempotent ≡ false
    → IsSettled batch_id current after batch done
unfolding finalize_from write_store new_receipt
finalize_from-IsSettled host batch_id payload batch current after (some r) changed done found
      distinct h c new =
    true_false (
      ap (λ d. d.idempotent)
        (ap (λ x. (commit host.base current x).1) (ok-injective h) ∙ ap (λ x. x.1) c)
      ∙ new)
finalize_from-IsSettled host batch_id payload batch current after none changed done found distinct h
      c new =
    let f = finalize_new-IsFinalized host batch_id payload batch current changed h in
    let observable = finalize_mode-is_observable batch.state _ f.moded in
    let result = ap (commit host.base current) (sym f.change) ∙ c in
    (
      subst (λ st. HasAdvanced is_observable st batch_id current after batch done.batch)
          (ap (λ r. r.1.result.state) result)
          (stored_batch is_observable (settled_batch_state f.settled.1) (λ d. d.batch) host.base
            batch_id current after batch _ _ done f.settled.0 found
            (finalized_batch-IsAdvanced host batch_id (host.observation_sha256 payload) f.outcome
              f.mode f.settled.1 batch observable)
            refl result),
      subst (λ r. HasStates r.0.items batch.items r.1.result.item_states) result
          (settle_items-HasStates host batch_id (host.observation_sha256 payload) f.outcome
            f.entries batch.items current.items f.settled distinct f.settles),
      subst (λ r. IsResult r.1.result.item_states r.1.result.state) result
          (settled_batch_state-IsResult f.settled.1),
    )

-- A finalize on a new observation, of a batch whose items have distinct posting keys, took the
-- batch in a state that takes observations, keeps its immutable payload and counts a revision of
-- it. The receipt lists the states that the items of the batch have in the store that is written,
-- and the batch is left in the state of the receipt: `reconciled`, `failed_before_commit` or
-- `unknown` where all items are imported, confirmed failures or unknown, and `partial` where they
-- are none of these.
pub finalize_import_batch-IsSettled :
    (host : BatchHost) (batch_id : String) (payload : FinalizePayload)
    (current after : VoucherStatusStore) (before : ImportBatch) (done : Finalized)
    → lookup batch_id current.batches ≡ some before
    → AreItemsDistinct before.items
    → finalize_import_batch host batch_id payload current ≡ ok (after, done)
    → done.idempotent ≡ false
    → IsSettled batch_id current after before done
unfolding finalize_import_batch finalize
finalize_import_batch-IsSettled host batch_id payload current after before done found distinct h
      new =
    let (changed, _, _, made, committed) =
      mutate-eq-ok host.base (finalize host batch_id payload) none current h in
    let (batch, found', h₁) =
      or_raise-eq-ok (lookup batch_id current.batches) (not_found batch_id) _ made in
    let same_batch = some-injective (sym found' ∙ found) in
    subst (λ b. IsSettled batch_id current after b done) same_batch
      (finalize_from-IsSettled host batch_id payload batch current after _ changed done found'
        (subst (λ b. AreItemsDistinct b.items) (sym same_batch) distinct) h₁ committed new)
