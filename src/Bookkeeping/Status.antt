-- ===== src/Bookkeeping/Status.antt =====
-- src/invoice_hub/bookkeeping/status.py: the voucher state machine, the status store and its
-- transactions. A transaction runs under the write lock of the directory, so it is one step on the
-- content of the file; `Host` holds what the step takes from outside (clock, uuid, hashes, `repr`).
pub mod Table
pub mod Store
pub mod Hash
pub mod Transition
pub mod Merge
pub mod Transactions
pub mod Locking
pub mod Merging
pub mod Migrate
pub mod Migrated
pub mod Unfailed
unfoldable pub use Table.{next_states, can_move, is_locked}
pub use Store.{
  Host, StablePayload, VoucherStatusStore, Overrides, no_overrides, Change, same, replaced,
}
unfoldable pub use Store.{write_store, mutate_voucher_status}
unfoldable pub use Hash.{stable_payload, proposal_revision_hash, posting_key, voucher_draft_key}
pub use Transition.{TransitionArgs}
unfoldable pub use Transition.{
  audit_entry, moved_item, transition, transition_voucher_status, review_args, apply_review_patch,
}
unfoldable pub use Merge.{
  snapshot_for, merged_item, is_kept, merge_draft, merge_drafts, merge_voucher_drafts,
}
