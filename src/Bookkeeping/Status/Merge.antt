-- ===== src/Bookkeeping/Status/Merge.antt =====
-- `_snapshot_for` and `merge_voucher_drafts`.
use invoice_hub.Prelude.{
  ℕ, ◌+◌, String, Bool, false, ◌&&◌, ◌||◌, Option, none, some, List, [], ◌∷◌, ◌++◌, not, any, elem,
  str_eq, if◌then◌else◌,
}
use invoice_hub.Prelude.Dict.{Dict, lookup, insert, values}
use invoice_hub.Prelude.Text.{strip, or_else, is_empty_text, take_text}
use invoice_hub.Domain.{
  draft, review_pending, rejected, state_eq, text, fields, AuditEntry, VoucherStatusItem,
  VoucherDraft,
}
use invoice_hub.Bookkeeping.Result.{Result, ok, migration_required, identity_locked, raise_if, ◌>>◌}
use invoice_hub.Bookkeeping.Status.Table.{is_locked}
use invoice_hub.Bookkeeping.Status.Store.{
  Host, VoucherStatusStore, Overrides, given_or, needs_migration, write_store,
}
use invoice_hub.Bookkeeping.Status.Hash.{posting_key, proposal_revision_hash}
use invoice_hub.Bookkeeping.Status.Transition.{audit_entry}

-- `str(values[0] if values else "")`
abbrev pub first_or_empty : List String → String
first_or_empty [] = ""
first_or_empty (x ∷ xs) = x

-- `list(dict.fromkeys(values))`: `seen` are the values kept so far.
unfoldable pub dedup_from : List String → List String → List String
dedup_from seen [] = []
dedup_from seen (x ∷ xs) =
    let fresh = x ∷ dedup_from (x ∷ seen) xs in
    let old = dedup_from seen xs in if elem x seen then old else fresh

-- The snapshot without its `proposal_revision_hash`: what is hashed.
unfoldable pub keyed_draft : Host → VoucherDraft → String → VoucherDraft
keyed_draft host d company_id =
    let anchor =
      if is_empty_text (strip d.anchor_business_key)
      then strip (first_or_empty d.source_invoice_nos)
      else strip d.anchor_business_key in
    let key = posting_key host company_id (or_else d.event_type "purchase_recognition") anchor in
    record d {
      company_id = company_id;
      anchor_business_key = anchor;
      posting_key = key;
      voucher_key = key;
      period = or_else d.period (take_text 7 d.voucher_date);
    }

-- `_snapshot_for`
unfoldable pub snapshot_for : Host → VoucherDraft → String → VoucherDraft
snapshot_for host d company_id =
    let keyed = keyed_draft host d company_id in
    record keyed { proposal_revision_hash = proposal_revision_hash host keyed }

-- The audit trail that a merged draft continues.
unfoldable pub merged_audit :
    Host → String → VoucherDraft → Option VoucherStatusItem → List AuditEntry
merged_audit host actor snapshot none = audit_entry host "draft" actor (text "generated") ∷ []
merged_audit host actor snapshot (some existing) =
    if state_eq existing.status rejected
    then existing.audit ++ audit_entry host "rejected->draft" actor (text "regenerated") ∷ []
    else if str_eq existing.snapshot.proposal_revision_hash snapshot.proposal_revision_hash
    then existing.audit
    else existing.audit
      ++ audit_entry host "proposal_revision_replaced" actor (
          fields (
            ("from", existing.snapshot.proposal_revision_hash)
            ∷ ("to", snapshot.proposal_revision_hash)
            ∷ []))
        ∷ []

abbrev pub previous_keys : Option VoucherStatusItem → List String
previous_keys none = []
previous_keys (some existing) = existing.legacy_keys

abbrev pub next_item_revision : Option VoucherStatusItem → ℕ
next_item_revision none = 1
next_item_revision (some existing) = existing.item_revision + 1

-- `[legacy_key] if legacy_key else []`
abbrev pub if_given : String → List String
if_given key = if is_empty_text key then [] else key ∷ []

-- `VoucherStatusItem(status="draft", …)`: every other field takes its default.
unfoldable pub merged_item :
    Host → String → VoucherDraft → VoucherDraft → Option VoucherStatusItem → VoucherStatusItem
merged_item host actor d snapshot existing = record {
  status = draft;
  snapshot = snapshot;
  voucher_no = "";
  approved_at = "";
  approved_by = "";
  approved_revision_hash = "";
  imported_at = "";
  reject_reason = "";
  export_file = "";
  batch_id = "";
  item_revision = next_item_revision existing;
  legacy_keys = dedup_from [] (previous_keys existing ++ if_given (strip d.legacy_key));
  last_observation_hash = "";
  audit = merged_audit host actor snapshot existing;
}

-- `existing and existing.status in {*LOCKED_STATUSES, "review_pending"}`
unfoldable pub is_kept : Option VoucherStatusItem → Bool
is_kept none = false
is_kept (some existing) = is_locked existing.status || state_eq existing.status review_pending

-- One round of the loop over the drafts.
unfoldable pub merge_draft :
    Host → String → String → VoucherDraft → Dict VoucherStatusItem → Dict VoucherStatusItem
merge_draft host actor company_id d items =
    let snapshot = snapshot_for host d company_id in
    let existing = lookup snapshot.posting_key items in
    if is_kept existing
    then items
    else insert snapshot.posting_key (merged_item host actor d snapshot existing) items

unfoldable pub merge_drafts :
    Host → String → String → List VoucherDraft → Dict VoucherStatusItem → Dict VoucherStatusItem
merge_drafts host actor company_id [] items = items
merge_drafts host actor company_id (d ∷ ds) items =
    merge_drafts host actor company_id ds (merge_draft host actor company_id d items)

-- `identity_changed`
unfoldable pub identity_changed : Overrides → VoucherStatusStore → Bool
identity_changed o current =
    let next_environment = given_or o.ledger_environment current.ledger_environment in
    let next_identity = given_or o.ledger_identity_sha256 current.ledger_identity_sha256 in
    not (is_empty_text current.ledger_identity_sha256)
    && not (is_empty_text next_identity)
    && (not (str_eq current.ledger_environment next_environment)
        || not (str_eq current.ledger_identity_sha256 next_identity))

unfoldable pub has_locked_item : Dict VoucherStatusItem → Bool
has_locked_item items = any (λ item. is_locked item.status) (values items)

-- The company that the merge resolves: given, known or new.
abbrev pub resolved_company : Host → Overrides → VoucherStatusStore → String
resolved_company host o current =
    or_else (given_or o.company_id "") (or_else current.company_id host.fresh_company_id)

unfoldable pub merge_voucher_drafts :
    Host → List VoucherDraft → String → Overrides → VoucherStatusStore → Result VoucherStatusStore
merge_voucher_drafts host drafts actor o current = do
  raise_if (needs_migration current) migration_required
  raise_if (identity_changed o current && has_locked_item current.items) identity_locked
  let company_id = resolved_company host o current
  ok (
      write_store host current (merge_drafts host actor company_id drafts current.items)
        current.batches
        (record o {
          company_id = some company_id;
          ledger_environment = some (given_or o.ledger_environment current.ledger_environment);
          ledger_identity_sha256 =
              some (given_or o.ledger_identity_sha256 current.ledger_identity_sha256);
          ledger_profile_sha256 =
              some (given_or o.ledger_profile_sha256 current.ledger_profile_sha256);
        }))
