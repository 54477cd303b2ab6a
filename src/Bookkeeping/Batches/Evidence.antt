-- ===== src/Bookkeeping/Batches/Evidence.antt =====
-- What a voucher needs to become imported.
use invoice_hub.Bookkeeping.Batches.Terminal.{settle_terminal-kept, stored_kept}
use invoice_hub.Prelude.Text.{is_blank, strip}
use invoice_hub.Bookkeeping.Status.Store.{given_or}
use invoice_hub.Bookkeeping.Batches.Settle.{
  Settled, check_newly_imported, is_imported, is_importing, is_terminal, kept, next_state,
  settle_importing, settle_item, settle_open, settle_terminal, settled_item, settled_status, stored,
  put_settled, settle_items,
}
use invoice_hub.Domain.{ImportBatchItem, Outcome, VoucherState, VoucherStatusItem, imported}
use invoice_hub.Prelude.Dict.{Dict, lookup, lookup-insert}
use invoice_hub.Bookkeeping.Batches.Shared.{BatchHost, ObservedItem}
use invoice_hub.Prelude.{
  Any, Bool, List, Option, String, ap, false, if◌then◌else◌, is_some, none, not, refl, some, str_eq,
  str_eq→eq, subst, true, ◌&&◌, ◌∙◌, ◌≡◌, Bool-cases, [], at_head, in_tail, inl, inr,
  some-injective, sym, ◌∷◌, ◌⊎◌,
}
use invoice_hub.Bookkeeping.Result.{
  >>=-eq-ok, Error, Result, err, item_not_importing, not-false, ok, ok-injective, raise_if,
  raise_if-eq-ok, signature_mismatch, not_found, or_raise-eq-ok, ◌>>=◌,
}

-- The observation that `entries` hold of the voucher `j` names the signature of its batch item `b`
-- and a voucher number.
pub record HasEvidence (entries : Dict ObservedItem) (j : String) (b : ImportBatchItem)
    : Type 0 where
  pub key : b.posting_key ≡ j
  pub observation : ObservedItem
  pub found : lookup b.posting_key entries ≡ some observation
  pub signature : observation.signature_hash ≡ b.signature_hash
  pub number : is_blank (given_or observation.voucher_no "") ≡ false

-- An observation among those that the caller hands over.
pub record IsObserved (raws : List (Option ObservedItem)) (j : String) (b : ImportBatchItem)
    : Type 0 where
  pub key : b.posting_key ≡ j
  pub observation : ObservedItem
  pub given : Any (λ raw. raw ≡ some observation) raws
  pub named : strip observation.posting_key ≡ j
  pub signature : observation.signature_hash ≡ b.signature_hash
  pub number : is_blank (given_or observation.voucher_no "") ≡ false

pub not_raised : (t : Bool) (e : Error) {u : Unit {0}} → raise_if t e ≡ ok u → t ≡ false
not_raised true e h = cc
not_raised false e h = refl

blank_number {ℓ} : {A : Type ℓ} {e : Error} {u : Unit {0}} → err e ≡ ok u → A
blank_number h = cc

check_newly_imported-some :
    (b : ImportBatchItem) (o : Option ObservedItem) {u : Unit {0}}
    → check_newly_imported b o ≡ ok u
    → (seen : ObservedItem) × (o ≡ some seen)
      × (seen.signature_hash ≡ b.signature_hash)
      × (is_blank (given_or seen.voucher_no "") ≡ false)
unfolding check_newly_imported strip
check_newly_imported-some b none h =
    let (_, h₁) = raise_if-eq-ok (not (str_eq "" b.signature_hash)) signature_mismatch _ h in
    blank_number h₁
check_newly_imported-some b (some seen) h =
    let (matches, h₁) =
      raise_if-eq-ok (not (str_eq seen.signature_hash b.signature_hash)) signature_mismatch _ h in
    (seen, refl, str_eq→eq _ _ (not-false _ matches), not_raised _ _ h₁)

-- The branches of a round: the one that stores an item is that of an open item.
settled_open :
    (skip terminal : Bool) (target : Result VoucherState)
    (closed opened : VoucherState → Result Settled) {updated : VoucherStatusItem}
    → ((s : VoucherState)
        → closed s ≡ ok (stored updated)
        → (r : VoucherState) × (opened r ≡ ok (stored updated)))
    → (if skip then ok kept else target >>= λ s. if terminal then closed s else opened s)
      ≡ ok (stored updated)
    → (s : VoucherState) × (opened s ≡ ok (stored updated))
settled_open true terminal target closed opened refute h = cc
settled_open false true (ok s) closed opened refute h = refute s h
settled_open false false (ok s) closed opened refute h = (s, h)
settled_open false terminal (err e) closed opened refute h = cc

settle_open-stored :
    (host : BatchHost) (batch_id observation_hash : String) (target : VoucherState)
    (b : ImportBatchItem) (item updated : VoucherStatusItem) (o : Option ObservedItem)
    → settle_open host batch_id observation_hash target b item o ≡ ok (stored updated)
    → updated.status ≡ imported
    → check_newly_imported b o ≡ ok tt
unfolding settle_open settled_item
settle_open-stored host batch_id observation_hash target b item updated o h t =
    let (_, checked, h₁) =
      >>=-eq-ok (if is_imported target then check_newly_imported b o else ok tt) _ h in
    let status : target ≡ imported = ap (settled_status item) (ok-injective h₁) ∙ t in
    subst (λ s. (if is_imported s then check_newly_imported b o else ok tt) ≡ ok tt) status checked

settle_item-stored :
    (host : BatchHost) (batch_id observation_hash : String) (outcome : Outcome)
    (b : ImportBatchItem) (item updated : VoucherStatusItem) (o : Option ObservedItem)
    → settle_item host batch_id observation_hash outcome b item o ≡ ok (stored updated)
    → updated.status ≡ imported
    → check_newly_imported b o ≡ ok tt
unfolding settle_item settle_importing
settle_item-stored host batch_id observation_hash outcome b item updated o h t =
    let (_, h₁) = raise_if-eq-ok (not (is_importing item.status)) item_not_importing _ h in
    let (target, h₂) =
      settled_open (is_terminal item.status && not (is_some o)) (is_terminal item.status)
        (next_state outcome o) (λ s. settle_terminal s b item o)
        (λ s. settle_open host batch_id observation_hash s b item o)
        (λ s k. stored_kept (settle_terminal-kept s b item o (stored updated) k)) h₁ in
    settle_open-stored host batch_id observation_hash target b item updated o h₂ t

module _ (host : BatchHost) (batch_id observation_hash : String) (outcome : Outcome)
    (entries : Dict ObservedItem) where
  -- A round imports the voucher of its batch item alone, and only on evidence.
  put_settled-HasEvidence :
      (b : ImportBatchItem) (before item : VoucherStatusItem) (round : Settled)
      (items : Dict VoucherStatusItem) (j : String)
      → settle_item host batch_id observation_hash outcome b before (lookup b.posting_key entries)
        ≡ ok round
      → lookup j (put_settled b.posting_key round items) ≡ some item
      → item.status ≡ imported
      → (lookup j items ≡ some item) ⊎ HasEvidence entries j b
  put_settled-HasEvidence b before item kept items j made h t = inl h
  put_settled-HasEvidence b before item (stored updated) items j made h t =
      elim (Bool-cases (str_eq b.posting_key j)) [
        | inl e ↦
            let stored_there =
              sym (ap (λ x. if x then some updated else lookup j items) e)
              ∙ sym (lookup-insert j b.posting_key updated items)
              ∙ h in
            let status = ap (λ x. x.status) (some-injective stored_there) ∙ t in
            let (seen, found, signature, number) =
              check_newly_imported-some b (lookup b.posting_key entries) (
                settle_item-stored host batch_id observation_hash outcome b before updated _ made
                  status) in
            inr (record {
              key = str_eq→eq b.posting_key j e;
              observation = seen;
              found = found;
              signature = signature;
              number = number;
            })
        | inr e ↦ inl (
            sym (ap (λ x. if x then some updated else lookup j items) e)
            ∙ sym (lookup-insert j b.posting_key updated items)
            ∙ h)
      ]

  pub settle_items-HasEvidence :
      (bs : List ImportBatchItem) (items : Dict VoucherStatusItem)
      (settled : Dict VoucherStatusItem × List VoucherState) (j : String) (item : VoucherStatusItem)
      → settle_items host batch_id observation_hash outcome entries bs items ≡ ok settled
      → lookup j settled.0 ≡ some item
      → item.status ≡ imported
      → (lookup j items ≡ some item) ⊎ Any (HasEvidence entries j) bs
  unfolding settle_items
  settle_items-HasEvidence [] items settled j item h there t =
      inl (ap (λ r. lookup j r.0) (ok-injective h) ∙ there)
  settle_items-HasEvidence (b ∷ bs) items settled j item h there t =
      let (before, found, h₁) =
        or_raise-eq-ok (lookup b.posting_key items) (not_found b.posting_key) _ h in
      let (round, made, h₂) =
        >>=-eq-ok
          (settle_item host batch_id observation_hash outcome b before
            (lookup b.posting_key entries))
          _ h₁ in
      let (rest, settles, h₃) =
        >>=-eq-ok
          (settle_items host batch_id observation_hash outcome entries bs
            (put_settled b.posting_key round items))
          _ h₂ in
      let there₁ = ap (λ r. lookup j r.0) (ok-injective h₃) ∙ there in
      elim (settle_items-HasEvidence bs _ rest j item settles there₁ t) [
        | inl earlier ↦ elim (put_settled-HasEvidence b before item round items j made earlier t) [
          | inl unchanged ↦ inl unchanged
          | inr evidence ↦ inr (at_head evidence)
        ]
        | inr evidence ↦ inr (in_tail evidence)
      ]
