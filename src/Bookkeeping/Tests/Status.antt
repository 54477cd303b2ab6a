-- ===== src/Bookkeeping/Tests/Status.antt =====
-- The theorems on the voucher states and the store, at concrete vouchers.
use invoice_hub.Prelude.Text.{strip}
use invoice_hub.Bookkeeping.Status.Transactions.{mutate_lost_update}
use invoice_hub.Bookkeeping.Status.Merging.{merge_voucher_drafts-keeps, IsLedgerKept}
use invoice_hub.Prelude.Dict.{lookup}
use invoice_hub.Bookkeeping.Tests.Data.{
  is_ok, item_in, ok_value, store_in, test_draft, test_host, value_of,
}
use invoice_hub.Bookkeeping.Status.Merge.{has_locked_item, identity_changed}
use invoice_hub.Domain.{
  VoucherStatusItem, approved, draft, exported, prepared, review_pending, text,
}
use invoice_hub.Prelude.{String, [], none, refl, some, true, ◌+◌, ◌∷◌, ◌≡◌, false, ◌⊎◌}
use invoice_hub.Bookkeeping.Result.{Result, err, ok, revision_conflict}
use invoice_hub.Bookkeeping.Status.Locking.{
  HasMoved, Reaches, Reaches-is_locked, here, next, transition_voucher_status-HasMoved,
}
use invoice_hub.Bookkeeping.Status.{
  Change, TransitionArgs, VoucherStatusStore, can_move, is_kept, is_locked, merge_voucher_drafts,
  mutate_voucher_status, next_states, no_overrides, replaced, transition, transition_voucher_status,
  write_store,
}

abbrev test_args : TransitionArgs
test_args = record {
  actor = "reviewer";
  detail = text "";
  voucher_no = none;
  export_file = none;
  reject_reason = none;
  batch_id = none;
  approved_revision_hash = some "hash";
  expected_revision = some 5;
  observation_hash = none;
}

abbrev moved : Result (VoucherStatusStore × VoucherStatusItem)
moved =
    transition_voucher_status test_host " v1 " approved test_args (store_in review_pending prepared)

abbrev moved_value : VoucherStatusStore × VoucherStatusItem
moved_value = value_of moved (store_in draft prepared, item_in draft)

moved_ok : is_ok moved ≡ true
unfolding transition_voucher_status transition mutate_voucher_status strip lookup can_move
    next_states
moved_ok = refl

transition_voucher_status-HasMoved_example :
    HasMoved (strip " v1 ") approved (store_in review_pending prepared) moved_value.0 moved_value.1
transition_voucher_status-HasMoved_example =
    transition_voucher_status-HasMoved test_host " v1 " approved test_args
      (store_in review_pending prepared) moved_value.0 moved_value.1 (ok_value moved _ moved_ok)

approved_exported : can_move approved exported ≡ true
unfolding can_move next_states
approved_exported = refl

approved_is_locked : is_locked approved ≡ true
unfolding is_locked
approved_is_locked = refl

exported_later : Reaches approved exported
exported_later = next here approved_exported

Reaches-is_locked_example : is_locked exported ≡ true
Reaches-is_locked_example = Reaches-is_locked approved_is_locked exported_later

abbrev keep_all : VoucherStatusStore → Result (Change × Unit {0})
keep_all s = ok (replaced s.items s.batches, tt)

keep_all_ok :
    mutate_voucher_status test_host keep_all (some 5) (store_in draft prepared)
    ≡ ok (
      write_store test_host
          (store_in draft prepared)
          (store_in draft prepared).items
          (store_in draft prepared).batches
          no_overrides,
      tt,
    )
unfolding mutate_voucher_status
keep_all_ok = refl

mutate_lost_update_example :
    mutate_voucher_status test_host keep_all (some 5) (
      write_store test_host
        (store_in draft prepared)
        (store_in draft prepared).items
        (store_in draft prepared).batches
        no_overrides)
    ≡ err (revision_conflict 5 6)
mutate_lost_update_example =
    mutate_lost_update test_host keep_all keep_all 5 (store_in draft prepared)
      (store_in draft prepared).items (store_in draft prepared).batches tt refl keep_all_ok

abbrev merged : Result VoucherStatusStore
merged =
    merge_voucher_drafts test_host (test_draft ∷ []) "actor" no_overrides
      (store_in exported prepared)

merged_ok : is_ok merged ≡ true
unfolding merge_voucher_drafts identity_changed has_locked_item is_locked
merged_ok = refl

merge_voucher_drafts-keeps_example :
    let current = store_in exported prepared in
    let after = value_of merged current in
    ((j : String)
      → (is_kept (lookup j current.items) ≡ false)
        ⊎ (lookup j after.items ≡ lookup j current.items))
    × (after.batches ≡ current.batches)
    × (after.revision ≡ current.revision + 1)
    × IsLedgerKept current after
merge_voucher_drafts-keeps_example =
    merge_voucher_drafts-keeps test_host (test_draft ∷ []) "actor" no_overrides
      (store_in exported prepared) _ (ok_value merged (store_in exported prepared) merged_ok)
