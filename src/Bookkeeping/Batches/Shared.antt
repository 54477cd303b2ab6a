-- ===== src/Bookkeeping/Batches/Shared.antt =====
-- What the operations on import batches share (src/invoice_hub/bookkeeping/batches.py): `_audit`,
-- `immutable_batch_payload`, `_verified_batch_file`, and the payloads that the callers hand over.
use invoice_hub.Bookkeeping.Result.{Result, file_changed, file_missing, or_raise, raise_if, ◌>>=◌}
use invoice_hub.Bookkeeping.Status.{Host}
use invoice_hub.Prelude.{Bool, List, Option, String, not, str_eq, ℕ}
use invoice_hub.Domain.{AuditEntry, Detail, ImportBatch, ImportBatchItem}

-- `payload` of a dry run: `voucher_count` is `none` where it is missing or `None`.
pub record DryRunPayload : Type 0 where
  pub file_sha256 : String
  pub is_ok : Bool
  pub voucher_count : Option ℕ
  pub debit_total : String
  pub credit_total : String

pub record Authorization : Type 0 where
  pub batch_id : String
  pub file_sha256 : String
  pub ledger_name : String
  pub period : String
  pub command_id : String
  pub authorized_by : String

pub record ObservedItem : Type 0 where
  pub posting_key : String
  pub observed_state : String
  pub signature_hash : String
  pub voucher_no : Option String

-- `items` is `none` where it is no list, and an entry is `none` where it is no dictionary. The last
-- three fields are those of `evidence`.
pub record FinalizePayload : Type 0 where
  pub mode : String
  pub outcome : String
  pub items : Option (List (Option ObservedItem))
  pub readback_hash : String
  pub commit_not_attempted : Bool
  pub ledger_absence_confirmed : Bool

-- What the operations on batches take from outside: the file at a path (`none` where it is no
-- file), and `canonical_sha256` of the three dictionaries that they hash.
pub record BatchHost : Type 0 where
  pub base : Host
  pub file_sha256 : String → Option String
  pub dry_run_sha256 : DryRunPayload → String
  pub authorization_sha256 : Authorization → String
  pub observation_sha256 : FinalizePayload → String

-- `_audit`
abbrev pub batch_audit : BatchHost → String → Detail → AuditEntry
batch_audit host action detail = record {
  ts = host.base.now;
  action = action;
  actor = "bookkeeping.batch";
  detail = detail;
}

-- `immutable_batch_payload`
pub record ImmutablePayload : Type 0 where
  pub schema_version : ℕ
  pub batch_id : String
  pub company_id : String
  pub ledger_environment : String
  pub ledger_identity_sha256 : String
  pub ledger_profile_sha256 : String
  pub ledger_name : String
  pub period : String
  pub template_facts_version : String
  pub template_facts_sha256 : String
  pub account_table_sha256 : String
  pub aux_catalog_sha256 : String
  pub file_path : String
  pub file_sha256 : String
  pub manifest_path : String
  pub items : List ImportBatchItem
  pub expected_count : ℕ
  pub expected_debit_total : String
  pub expected_credit_total : String

unfoldable pub immutable_batch_payload : ImportBatch → ImmutablePayload
immutable_batch_payload batch = record {
  schema_version = batch.schema_version;
  batch_id = batch.batch_id;
  company_id = batch.company_id;
  ledger_environment = batch.ledger_environment;
  ledger_identity_sha256 = batch.ledger_identity_sha256;
  ledger_profile_sha256 = batch.ledger_profile_sha256;
  ledger_name = batch.ledger_name;
  period = batch.period;
  template_facts_version = batch.template_facts_version;
  template_facts_sha256 = batch.template_facts_sha256;
  account_table_sha256 = batch.account_table_sha256;
  aux_catalog_sha256 = batch.aux_catalog_sha256;
  file_path = batch.file_path;
  file_sha256 = batch.file_sha256;
  manifest_path = batch.manifest_path;
  items = batch.items;
  expected_count = batch.expected_count;
  expected_debit_total = batch.expected_debit_total;
  expected_credit_total = batch.expected_credit_total;
}

-- `_verified_batch_file`
unfoldable pub verified_batch_file : BatchHost → ImportBatch → Result (Unit {0})
verified_batch_file host batch = do
  found ← or_raise (host.file_sha256 batch.file_path) file_missing
  raise_if (not (str_eq found batch.file_sha256)) file_changed
