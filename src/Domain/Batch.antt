-- ===== src/Domain/Batch.antt =====
-- Status items, their audit trail and import batches: src/invoice_hub/domain/models.py, the classes
-- from `VoucherStatusItem` on, with the audit entries and receipts that bookkeeping puts in them.
use invoice_hub.Prelude.{ℕ, String, List, Option}
use invoice_hub.Prelude.Dict.{Dict}
use invoice_hub.Domain.Json.{Json}
use invoice_hub.Domain.Voucher.{VoucherDraft}
use invoice_hub.Domain.States.{VoucherState, BatchState}

-- The outcomes and modes that a finalize payload may name.
pub data Outcome : Type 0 where
  confirmed_success failed_before_commit partial unknown : Outcome

pub data Mode : Type 0 where
  apply reconcile_only : Mode

-- What `finalize` records of one observation.
pub record Receipt : Type 0 where
  pub batch_id : String
  pub observation_hash : String
  pub outcome : Outcome
  pub mode : Mode
  pub state : BatchState
  pub item_states : List VoucherState
  pub recorded_at : String

-- The `detail` of an audit entry: a text, a dictionary of texts, or a receipt.
pub data Detail : Type 0 where
  text : String → Detail
  fields : Dict String → Detail
  receipt : Receipt → Detail

pub record AuditEntry : Type 0 where
  pub ts : String
  pub action : String
  pub actor : String
  pub detail : Detail

pub record VoucherStatusItem : Type 0 where
  pub status : VoucherState
  pub snapshot : VoucherDraft
  pub voucher_no : String
  pub approved_at : String
  pub approved_by : String
  pub approved_revision_hash : String
  pub imported_at : String
  pub reject_reason : String
  pub export_file : String
  pub batch_id : String
  pub item_revision : ℕ
  pub legacy_keys : List String
  pub last_observation_hash : String
  pub audit : List AuditEntry

pub record ImportBatchItem : Type 0 where
  pub posting_key : String
  pub proposal_revision_hash : String
  pub export_row_no : ℕ
  pub export_row_end : ℕ
  pub planned_voucher_no : String
  pub signature_hash : String

-- `finalize_result` is the empty dictionary until the first finalize: `none` here.
pub record ImportBatch : Type 0 where
  pub schema_version : ℕ
  pub revision : ℕ
  pub batch_id : String
  pub company_id : String
  pub ledger_environment : String
  pub ledger_identity_sha256 : String
  pub ledger_profile_sha256 : String
  pub ledger_name : String
  pub period : String
  pub template_facts_version : String
  pub template_facts_sha256 : String
  pub account_table_sha256 : String
  pub aux_catalog_sha256 : String
  pub file_path : String
  pub file_sha256 : String
  pub manifest_path : String
  pub items : List ImportBatchItem
  pub expected_count : ℕ
  pub expected_debit_total : String
  pub expected_credit_total : String
  pub baseline : Dict Json
  pub state : BatchState
  pub created_at : String
  pub dry_run_at : String
  pub authorized_at : String
  pub finalized_at : String
  pub authorization_hash : String
  pub observation_hash : String
  pub finalize_result : Option Receipt
  pub observation_receipts : Dict Receipt
  pub audit : List AuditEntry

pub data ReviewAction : Type 0 where
  approve reject : ReviewAction

pub record VoucherReviewPatch : Type 0 where
  pub voucher_key : String
  pub action : ReviewAction
  pub reason : String
  pub proposal_revision_hash : String
  pub expected_store_revision : Option ℕ
  pub reviewed_by : String
  pub command_id : String
