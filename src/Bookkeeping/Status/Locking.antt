-- ===== src/Bookkeeping/Status/Locking.antt =====
-- Transitions follow the table, and a voucher that is locked stays locked.
use invoice_hub.Prelude.Text.{strip}
use invoice_hub.Bookkeeping.Status.Transactions.{
  mutate-eq-ok, write_store-batches, write_store-lookup-insert, write_store-revision,
}
use invoice_hub.Prelude.Dict.{lookup}
use invoice_hub.Bookkeeping.Result.{
  illegal_transition, not-false, not_found, ok, ok-injective, or_raise-eq-ok, raise_if-eq-ok,
}
use invoice_hub.Bookkeeping.Status.Table.{can_move, is_locked}
use invoice_hub.Domain.{VoucherState, VoucherStatusItem, approved}
use invoice_hub.Bookkeeping.Status.Transition.{
  TransitionArgs, moved_item, transition, transition_voucher_status,
}
use invoice_hub.Prelude.{
  String, ap, arith, if◌then◌else◌, length, length-append, not, refl, some, str_eq, sym, true, ◌+◌,
  ◌∙◌, ◌≡◌,
}
use invoice_hub.Bookkeeping.Status.Store.{Host, VoucherStatusStore, commit}

-- The states that a chain of allowed transitions reaches.
pub data Reaches (s : VoucherState) : VoucherState → Type 0 where
  here : Reaches s s
  next : {t u : VoucherState} → Reaches s t → can_move t u ≡ true → Reaches s u

can_move-is_locked :
    (s t : VoucherState) → is_locked s ≡ true → can_move s t ≡ true → is_locked t ≡ true
unfolding can_move is_locked
can_move-is_locked approved t h k = ground arith
can_move-is_locked _ t h k = ground arith

-- From a locked state the table leads to locked states only: an approved voucher is never a draft
-- again.
pub Reaches-is_locked : {s t : VoucherState} → is_locked s ≡ true → Reaches s t → is_locked t ≡ true
Reaches-is_locked h here = h
Reaches-is_locked h (next {t = t} {u = u} r m) = can_move-is_locked t u (Reaches-is_locked h r) m

-- What a transition that returned has done.
pub record HasMoved (key : String) (new_status : VoucherState) (current after : VoucherStatusStore)
    (updated : VoucherStatusItem) : Type 0 where
  pub before : VoucherStatusItem
  pub found : lookup key current.items ≡ some before
  pub allowed : can_move before.status new_status ≡ true
  pub status : updated.status ≡ new_status
  pub item_revision : updated.item_revision ≡ before.item_revision + 1
  pub trail : length updated.audit ≡ length before.audit + 1
  pub items :
      (j : String)
      → lookup j after.items ≡ (if str_eq key j then some updated else lookup j current.items)
  pub batches : after.batches ≡ current.batches
  pub store_revision : after.revision ≡ current.revision + 1

moved_item_fields :
    (host : Host) (new_status : VoucherState) (args : TransitionArgs) (item : VoucherStatusItem)
    → let updated = moved_item host new_status args item in
      (updated.status ≡ new_status)
      × (updated.item_revision ≡ item.item_revision + 1)
      × (length updated.audit ≡ length item.audit + 1)
unfolding moved_item
moved_item_fields host new_status args item = (refl, refl, length-append item.audit _)

-- A transition that returns followed the table from the stored state, counts one revision of the
-- item and of the store, adds one audit entry, and touches no other voucher and no batch.
pub transition_voucher_status-HasMoved :
    (host : Host) (voucher_key : String) (new_status : VoucherState) (args : TransitionArgs)
    (current after : VoucherStatusStore) (updated : VoucherStatusItem)
    → transition_voucher_status host voucher_key new_status args current ≡ ok (after, updated)
    → HasMoved (strip voucher_key) new_status current after updated
unfolding transition_voucher_status transition
transition_voucher_status-HasMoved host voucher_key new_status args current after updated h =
    let key = strip voucher_key in
    let (changed, _, guarded, made, committed) =
      mutate-eq-ok host (transition host key new_status args) args.expected_revision current h in
    let (item, found, h₁) = or_raise-eq-ok (lookup key current.items) (not_found key) _ made in
    let (refused, h₂) =
      raise_if-eq-ok (not (can_move item.status new_status)) illegal_transition _ h₁ in
    let stored = moved_item host new_status args item in
    let (status, item_revision, trail) = moved_item_fields host new_status args item in
    let result = ap (commit host current) (ok-injective h₂) ∙ committed in
    let same_item : stored ≡ updated = ap (λ r. r.1) result in
    record {
      before = item;
      found = found;
      allowed = not-false _ refused;
      status = ap (λ x. x.status) (sym same_item) ∙ status;
      item_revision = ap (λ x. x.item_revision) (sym same_item) ∙ item_revision;
      trail = ap (λ x. length x.audit) (sym same_item) ∙ trail;
      items = λ j.
          ap (λ r. lookup j r.0.items) (sym result)
          ∙ write_store-lookup-insert host current key stored j
          ∙ ap (λ x. if str_eq key j then some x else lookup j current.items) same_item;
      batches = ap (λ r. r.0.batches) (sym result) ∙ write_store-batches host current _ _;
      store_revision = ap (λ r. r.0.revision) (sym result) ∙ write_store-revision host current _ _;
    }
