-- ===== src/Bookkeeping/Batches/Terminal.antt =====
-- What a finalize leaves as it was: the vouchers whose result is known.
use invoice_hub.Bookkeeping.Status.Transactions.{mutate-eq-ok}
use invoice_hub.Bookkeeping.Batches.Inversion.{finalize_new-IsFinalized}
use invoice_hub.Bookkeeping.Status.Store.{commit}
use invoice_hub.Bookkeeping.Batches.Finalize.{
  Finalized, finalize, finalize_from, finalize_import_batch,
}
use invoice_hub.Bookkeeping.Status.{Change, VoucherStatusStore, write_store}
use invoice_hub.Bookkeeping.Batches.Settle.{
  Settled, check_imported, is_imported, is_importing, is_terminal, kept, next_state, put_settled,
  settle_importing, settle_item, settle_items, settle_open, settle_terminal, stored,
}
use invoice_hub.Domain.{
  ImportBatchItem, Outcome, VoucherState, VoucherStatusItem, state_eq, ImportBatch, Receipt,
}
use invoice_hub.Prelude.Dict.{Dict, lookup, lookup-insert}
use invoice_hub.Prelude.{
  Bool-cases, List, Option, String, [], ap, false, if◌then◌else◌, inl, inr, none, not, some,
  some-injective, str_eq, str_eq→eq, subst, sym, true, ◌&&◌, ◌∙◌, ◌∷◌, ◌≡◌,
}
use invoice_hub.Bookkeeping.Batches.Shared.{BatchHost, ObservedItem, FinalizePayload}
use invoice_hub.Bookkeeping.Result.{
  >>=-eq-ok, item_not_importing, not_found, ok, ok-injective, or_raise-eq-ok, raise_if-eq-ok,
  terminal_rewritten, ◌>>=◌,
}

-- `item` is there, and imported or a confirmed failure.
abbrev pub IsKnown : String → Dict VoucherStatusItem → VoucherStatusItem → Type 0
IsKnown j items item = (lookup j items ≡ some item) × (is_terminal item.status ≡ true)

pub stored_kept {ℓ} : {A : Type ℓ} {item : VoucherStatusItem} → stored item ≡ kept → A
stored_kept e = cc

pub settle_terminal-kept :
    (target : VoucherState) (b : ImportBatchItem) (item : VoucherStatusItem)
    (o : Option ObservedItem) (settled : Settled)
    → settle_terminal target b item o ≡ ok settled
    → settled ≡ kept
unfolding settle_terminal
settle_terminal-kept target b item o settled h =
    let (_, h₁) = raise_if-eq-ok (not (state_eq target item.status)) terminal_rewritten _ h in
    let (_, _, h₂) =
      >>=-eq-ok (if is_imported item.status then check_imported b item o else ok tt) _ h₁ in
    sym (ok-injective h₂)

module _ (host : BatchHost) (batch_id observation_hash : String) (outcome : Outcome) where
  -- A round on a terminal item keeps it.
  settle_item-terminal :
      (b : ImportBatchItem) (item : VoucherStatusItem) (o : Option ObservedItem) (settled : Settled)
      → is_terminal item.status ≡ true
      → settle_item host batch_id observation_hash outcome b item o ≡ ok settled
      → settled ≡ kept
  unfolding settle_item settle_importing
  settle_item-terminal b item none settled t h =
      let (_, h₁) = raise_if-eq-ok (not (is_importing item.status)) item_not_importing _ h in
      sym (
        ok-injective (
          subst
            (λ x.
              (if x && true
                then ok kept
                else (next_state outcome none >>= λ target.
                    if x
                    then settle_terminal target b item none
                    else settle_open host batch_id observation_hash target b item none))
              ≡ ok settled)
            t h₁))
  settle_item-terminal b item (some o) settled t h =
      let (_, h₁) = raise_if-eq-ok (not (is_importing item.status)) item_not_importing _ h in
      let h₂ =
        subst
          (λ x.
            (if x && false
              then ok kept
              else (next_state outcome (some o) >>= λ target.
                  if x
                  then settle_terminal target b item (some o)
                  else settle_open host batch_id observation_hash target b item (some o)))
            ≡ ok settled)
          t h₁ in
      let (target, _, h₃) = >>=-eq-ok (next_state outcome (some o)) _ h₂ in
      settle_terminal-kept target b item (some o) settled h₃

  put_settled-IsKnown :
      (j key : String) (known item : VoucherStatusItem) (settled : Settled)
      (items : Dict VoucherStatusItem)
      → IsKnown j items known
      → lookup key items ≡ some item
      → (is_terminal item.status ≡ true → settled ≡ kept)
      → IsKnown j (put_settled key settled items) known
  put_settled-IsKnown j key known item kept items k found h = k
  put_settled-IsKnown j key known item (stored updated) items k found h =
      elim (Bool-cases (str_eq key j)) [
        | inl e ↦
            let same_item : item ≡ known =
              some-injective (sym found ∙ ap (λ x. lookup x items) (str_eq→eq key j e) ∙ k.0) in
            stored_kept (h (ap (λ x. is_terminal x.status) same_item ∙ k.1))
        | inr e ↦ (rw (lookup-insert j key updated items) (rw e k.0), k.1)
      ]

  pub settle_items-IsKnown :
      (entries : Dict ObservedItem) (bs : List ImportBatchItem) (items : Dict VoucherStatusItem)
      (j : String) (known : VoucherStatusItem)
      (settled : Dict VoucherStatusItem × List VoucherState)
      → IsKnown j items known
      → settle_items host batch_id observation_hash outcome entries bs items ≡ ok settled
      → IsKnown j settled.0 known
  unfolding settle_items
  settle_items-IsKnown entries [] items j known settled k h =
      subst (λ r. IsKnown j r.0 known) (ok-injective h) k
  settle_items-IsKnown entries (b ∷ bs) items j known settled k h =
      let (item, found, h₁) =
        or_raise-eq-ok (lookup b.posting_key items) (not_found b.posting_key) _ h in
      let (round, made, h₂) =
        >>=-eq-ok
          (settle_item host batch_id observation_hash outcome b item (lookup b.posting_key entries))
          _ h₁ in
      let (rest, settles, h₃) =
        >>=-eq-ok
          (settle_items host batch_id observation_hash outcome entries bs
            (put_settled b.posting_key round items))
          _ h₂ in
      let k₁ =
        put_settled-IsKnown j b.posting_key known item round items k found
          (λ t. settle_item-terminal b item _ round t made) in
      subst (λ r. IsKnown j r.0 known) (ok-injective h₃)
        (settle_items-IsKnown entries bs _ j known rest k₁ settles)

finalize_from-IsKnown :
    (host : BatchHost) (batch_id : String) (payload : FinalizePayload) (batch : ImportBatch)
    (current : VoucherStatusStore) (recorded : Option Receipt) (changed : Change × Finalized)
    (j : String) (item : VoucherStatusItem)
    → finalize_from host batch_id payload batch current recorded ≡ ok changed
    → IsKnown j current.items item
    → IsKnown j (commit host.base current changed).0.items item
unfolding finalize_from write_store
finalize_from-IsKnown host batch_id payload batch current (some r) changed j item h k =
    subst (λ c. IsKnown j (commit host.base current c).0.items item) (ok-injective h) k
finalize_from-IsKnown host batch_id payload batch current none changed j item h k =
    let f = finalize_new-IsFinalized host batch_id payload batch current changed h in
    subst (λ c. IsKnown j (commit host.base current c).0.items item) (sym f.change)
      (settle_items-IsKnown host batch_id (host.observation_sha256 payload) f.outcome f.entries
        batch.items current.items j item f.settled k f.settles)

-- A finalize that returned, of whatever batch, leaves every voucher as it was that is imported or
-- a confirmed failure.
pub finalize_import_batch-IsKnown :
    (host : BatchHost) (batch_id : String) (payload : FinalizePayload)
    (current after : VoucherStatusStore) (done : Finalized) (j : String) (item : VoucherStatusItem)
    → finalize_import_batch host batch_id payload current ≡ ok (after, done)
    → lookup j current.items ≡ some item
    → is_terminal item.status ≡ true
    → lookup j after.items ≡ some item
unfolding finalize_import_batch finalize
finalize_import_batch-IsKnown host batch_id payload current after done j item h found t =
    let (changed, fresh, _, made, committed) =
      mutate-eq-ok host.base (finalize host batch_id payload) none current h in
    let (batch, _, h₁) =
      or_raise-eq-ok (lookup batch_id current.batches) (not_found batch_id) _ made in
    let known =
      finalize_from-IsKnown host batch_id payload batch current _ changed j item h₁ (found, t) in
    (subst (λ r. IsKnown j r.0.items item) committed known).0
