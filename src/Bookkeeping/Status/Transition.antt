-- ===== src/Bookkeeping/Status/Transition.antt =====
-- `transition_voucher_status` and `apply_review_patch`.
use Prim.Native.String.{◌++◌ as append}
use invoice_hub.Prelude.{ℕ, ◌+◌, String, Option, none, some, [], ◌∷◌, ◌++◌, not, if◌then◌else◌}
use invoice_hub.Prelude.Dict.{lookup, insert}
use invoice_hub.Prelude.Text.{strip, or_else}
use invoice_hub.Domain.{
  VoucherState, approved, rejected, imported, state_text, state_eq, Detail, text, fields,
  AuditEntry, VoucherStatusItem, ReviewAction, approve, reject, VoucherReviewPatch,
}
use invoice_hub.Bookkeeping.Result.{
  Result, ok, not_found, illegal_transition, raise_if, or_raise, ◌>>=◌, ◌>>◌,
}
use invoice_hub.Bookkeeping.Status.Table.{can_move}
use invoice_hub.Bookkeeping.Status.Store.{
  Host, VoucherStatusStore, Change, replaced, given_or, mutate_voucher_status,
}

-- `f"{a}->{b}"`
abbrev pub arrow : VoucherState → VoucherState → String
arrow a b = append (state_text a) (append "->" (state_text b))

-- `_audit_entry`
abbrev pub audit_entry : Host → String → String → Detail → AuditEntry
audit_entry host action actor detail = record {
  ts = host.now;
  action = action;
  actor = actor;
  detail = detail;
}

-- The keyword arguments of `transition_voucher_status`.
pub record TransitionArgs : Type 0 where
  pub actor : String
  pub detail : Detail
  pub voucher_no : Option String
  pub export_file : Option String
  pub reject_reason : Option String
  pub batch_id : Option String
  pub approved_revision_hash : Option String
  pub expected_revision : Option ℕ
  pub observation_hash : Option String

-- `str(detail or "")`
abbrev pub detail_text : Host → Detail → String
detail_text host (text s) = s
detail_text host (fields []) = ""
detail_text host d = host.repr d

-- The item that the transition stores.
unfoldable pub moved_item :
    Host → VoucherState → TransitionArgs → VoucherStatusItem → VoucherStatusItem
moved_item host new_status args item =
    let approving = state_eq new_status approved in
    record item {
      status = new_status;
      item_revision = item.item_revision + 1;
      audit =
          item.audit ++ audit_entry host (arrow item.status new_status) args.actor args.detail ∷ [];
      approved_at = if approving then host.now else item.approved_at;
      approved_by = if approving then args.actor else item.approved_by;
      approved_revision_hash =
          if approving
          then or_else (given_or args.approved_revision_hash "")
              item.snapshot.proposal_revision_hash
          else item.approved_revision_hash;
      imported_at = if state_eq new_status imported then host.now else item.imported_at;
      reject_reason =
          if state_eq new_status rejected
          then given_or args.reject_reason (detail_text host args.detail)
          else item.reject_reason;
      voucher_no = given_or args.voucher_no item.voucher_no;
      export_file = given_or args.export_file item.export_file;
      batch_id = given_or args.batch_id item.batch_id;
      last_observation_hash = given_or args.observation_hash item.last_observation_hash;
    }

-- The mutator `transition`, at the stripped key.
unfoldable pub transition :
    Host
    → String
    → VoucherState
    → TransitionArgs
    → VoucherStatusStore
    → Result (Change × VoucherStatusItem)
transition host key new_status args current = do
  item ← or_raise (lookup key current.items) (not_found key)
  raise_if (not (can_move item.status new_status)) illegal_transition
  let updated = moved_item host new_status args item
  ok (replaced (insert key updated current.items) current.batches, updated)

unfoldable pub transition_voucher_status :
    Host
    → String
    → VoucherState
    → TransitionArgs
    → VoucherStatusStore
    → Result (VoucherStatusStore × VoucherStatusItem)
unfolding transition
transition_voucher_status host voucher_key new_status args =
    mutate_voucher_status host (transition host (strip voucher_key) new_status args)
      args.expected_revision

-- The arguments that `apply_review_patch` passes on.
unfoldable pub review_args : VoucherReviewPatch → String → TransitionArgs
review_args patch actor = record {
  actor = actor;
  detail = fields (("reason", patch.reason) ∷ ("command_id", patch.command_id) ∷ []);
  voucher_no = none;
  export_file = none;
  reject_reason = elim (patch.action) [ approve ↦ none | reject ↦ some patch.reason ];
  batch_id = none;
  approved_revision_hash = elim (patch.action) [
    | approve ↦ some patch.proposal_revision_hash
    | reject ↦ none
  ];
  expected_revision = patch.expected_store_revision;
  observation_hash = none;
}

abbrev pub review_status : ReviewAction → VoucherState
review_status approve = approved
review_status reject = rejected

unfoldable pub apply_review_patch :
    Host
    → VoucherReviewPatch
    → String
    → VoucherStatusStore
    → Result (VoucherStatusStore × VoucherStatusItem)
unfolding review_args
apply_review_patch host patch actor =
    transition_voucher_status host patch.voucher_key (review_status patch.action)
      (review_args patch actor)
