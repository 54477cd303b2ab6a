-- ===== src/Bookkeeping/Tests/Data.antt =====
-- Concrete vouchers and batches.
use invoice_hub.Bookkeeping.Result.{Result, err, ok}
use invoice_hub.Bookkeeping.Status.{Host, VoucherStatusStore}
use invoice_hub.Prelude.{Bool, [], false, none, refl, some, sym, true, true_false, ◌∷◌, ◌≡◌}
use invoice_hub.Domain.{
  BatchState, ImportBatch, ImportBatchItem, LineRole, VoucherDraft, VoucherLineDecision,
  VoucherProjectAllocation, VoucherSourceLine, VoucherState, VoucherStatusItem, auto, deterministic,
  imported, pending, ready,
}
use invoice_hub.Bookkeeping.Batches.Shared.{BatchHost}

abbrev pub test_host : Host
test_host = record {
  now = "2026-01-02T03:04:05";
  fresh_company_id = "company";
  sha1 = λ s. s;
  sha256 = λ s. s;
  stable_sha256 = λ p. "hash";
  line_sha256 = λ s a r. "line";
  repr = λ d. "";
}

abbrev pub test_batch_host : BatchHost
test_batch_host = record {
  base = test_host;
  file_sha256 = λ path. some "file";
  dry_run_sha256 = λ p. "dry";
  authorization_sha256 = λ a. "authorization";
  observation_sha256 = λ p. "observation";
}

abbrev pub test_source_line : VoucherSourceLine
test_source_line = record {
  source_line_id = "s1";
  source_row_no = 1;
  source_type = "purchase_invoice";
  invoice_no = "n1";
  seller = "seller";
  item_name = "item";
  item_key = "item";
  project_name = "";
  quantity = "1";
  pretax_amount = "100.00";
  tax_amount = "13.00";
  total_amount = "113.00";
  source_file = "";
  source_file_sha256 = "";
}

abbrev pub test_allocation : VoucherProjectAllocation
test_allocation = record {
  allocation_id = "a1";
  source_line_id = "s1";
  project_id = "";
  project_name = "project";
  pretax_amount = "100";
  tax_amount = "13";
  total_amount = "113";
}

abbrev pub test_decision : VoucherLineDecision
test_decision = record {
  line_id = "line";
  account_code = "1001";
  aux = [];
  line_role = LineRole.cost;
  summary = "summary";
  direction = "";
  amount = "";
  source_line_ids = [];
  allocation_ids = [];
}

abbrev pub test_draft : VoucherDraft
test_draft = record {
  voucher_key = "v1";
  voucher_date = "2026-01-01";
  voucher_type = "purchase";
  lines = [];
  source_invoice_nos = "n1" ∷ [];
  source_rows = [];
  balance_ok = true;
  review_tier = auto;
  generated_at = "";
  posting_key = "v1";
  legacy_key = "";
  proposal_revision_hash = "hash";
  company_id = "company";
  ledger_environment = "";
  ledger_identity_sha256 = "";
  ledger_profile_revision = 0;
  ledger_profile_sha256 = "";
  event_type = "";
  source_type = "";
  period = "2026-01";
  anchor_business_key = "n1";
  key_strength = "";
  source_file_hashes = [];
  source_lines = test_source_line ∷ [];
  counterparty_id = "";
  counterparty_name = "";
  business_class = "";
  payment_state = "";
  payment_evidence_refs = [];
  tax_treatment = pending;
  tax_evidence_refs = [];
  receiving_state = "";
  receiving_evidence_refs = [];
  project_allocations = [];
  line_decision_templates = test_decision ∷ [];
  decision_confirmed_by = "";
  decision_confirmed_at = "";
  proposal_hash_version = 2;
  rule_ids = [];
  rule_fingerprints = [];
  rules_version = "";
  rule_resolutions = [];
  mapping_resolution_sha256 = "";
  account_table_sha256 = "";
  aux_catalog_sha256 = "";
  suggestion_source = deterministic;
  execution_readiness = ready;
  blockers = [];
}

abbrev pub item_in : VoucherState → VoucherStatusItem
item_in state = record {
  status = state;
  snapshot = test_draft;
  voucher_no = "";
  approved_at = "";
  approved_by = "";
  approved_revision_hash = "hash";
  imported_at = "";
  reject_reason = "";
  export_file = "";
  batch_id = "b1";
  item_revision = 1;
  legacy_keys = [];
  last_observation_hash = "";
  audit = [];
}

abbrev pub test_batch_item : ImportBatchItem
test_batch_item = record {
  posting_key = "v1";
  proposal_revision_hash = "hash";
  export_row_no = 2;
  export_row_end = 3;
  planned_voucher_no = "7";
  signature_hash = "signature";
}

abbrev pub batch_in : BatchState → ImportBatch
batch_in state = record {
  schema_version = 1;
  revision = 1;
  batch_id = "b1";
  company_id = "company";
  ledger_environment = "";
  ledger_identity_sha256 = "";
  ledger_profile_sha256 = "";
  ledger_name = "ledger";
  period = "2026-01";
  template_facts_version = "";
  template_facts_sha256 = "";
  account_table_sha256 = "";
  aux_catalog_sha256 = "";
  file_path = "file.xlsx";
  file_sha256 = "file";
  manifest_path = "manifest.json";
  items = test_batch_item ∷ [];
  expected_count = 1;
  expected_debit_total = "113.00";
  expected_credit_total = "113.00";
  baseline = [];
  state = state;
  created_at = "";
  dry_run_at = "";
  authorized_at = "";
  finalized_at = "";
  authorization_hash = "";
  observation_hash = "";
  finalize_result = none;
  observation_receipts = [];
  audit = [];
}

-- Two vouchers: `v1`, in a state that is given, and `v0`, imported; and one batch.
abbrev pub store_in : VoucherState → BatchState → VoucherStatusStore
store_in voucher batch = record {
  version = 2;
  revision = 5;
  company_id = "company";
  ledger_environment = "";
  ledger_identity_sha256 = "";
  ledger_profile_sha256 = "";
  updated_at = "";
  items = ("v0", item_in imported) ∷ ("v1", item_in voucher) ∷ [];
  batches = ("b1", batch_in batch) ∷ [];
}

abbrev pub is_ok {ℓ} : {A : Type ℓ} → Result A → Bool
is_ok (ok a) = true
is_ok (err e) = false

abbrev pub value_of {ℓ} : {A : Type ℓ} → Result A → A → A
value_of (ok a) b = a
value_of (err e) b = b

pub ok_value {ℓ} : {A : Type ℓ} (m : Result A) (b : A) → is_ok m ≡ true → m ≡ ok (value_of m b)
ok_value (ok a) b h = refl
ok_value (err e) b h = true_false (sym h)
