-- ===== src/Domain/Voucher.antt =====
-- Vouchers: src/invoice_hub/domain/models.py, the classes from `VoucherLine` to `VoucherDraft`.
-- Amounts are texts, as in the source; src/invoice_hub/bookkeeping reads them as decimals.
use invoice_hub.Prelude.{ℕ, String, Bool, List}
use invoice_hub.Prelude.Dict.{Dict}
use invoice_hub.Domain.Json.{Json}

pub data Direction : Type 0 where
  debit credit : Direction

pub data LineRole : Type 0 where
  cost input_tax payable settlement other : LineRole

pub data TaxTreatment : Type 0 where
  deductible non_deductible pending : TaxTreatment

pub data ReviewTier : Type 0 where
  auto ai_suggested forced_manual manual_confirmed : ReviewTier

pub data SuggestionSource : Type 0 where
  deterministic ai manual : SuggestionSource

pub data ExecutionReadiness : Type 0 where
  ready needs_review blocked : ExecutionReadiness

pub data ResolutionOutcome : Type 0 where
  matched unmatched ambiguous : ResolutionOutcome

pub record VoucherLine : Type 0 where
  pub line_id : String
  pub line_role : LineRole
  pub summary : String
  pub account_code : String
  pub account_name : String
  pub direction : Direction
  pub amount : String
  pub aux : Dict String
  pub source_line_ids : List String
  pub allocation_ids : List String

pub record VoucherSourceLine : Type 0 where
  pub source_line_id : String
  pub source_row_no : ℕ
  pub source_type : String
  pub invoice_no : String
  pub seller : String
  pub item_name : String
  pub item_key : String
  pub project_name : String
  pub quantity : String
  pub pretax_amount : String
  pub tax_amount : String
  pub total_amount : String
  pub source_file : String
  pub source_file_sha256 : String

pub record VoucherProjectAllocation : Type 0 where
  pub allocation_id : String
  pub source_line_id : String
  pub project_id : String
  pub project_name : String
  pub pretax_amount : String
  pub tax_amount : String
  pub total_amount : String

pub record VoucherRuleResolution : Type 0 where
  pub source_line_id : String
  pub outcome : ResolutionOutcome
  pub rule_id : String
  pub rule_fingerprint : String
  pub candidate_rule_ids : List String
  pub candidate_rule_fingerprints : List String

pub record VoucherEvidenceReference : Type 0 where
  pub evidence_id : String
  pub evidence_type : String
  pub subject_id : String
  pub source_path : String
  pub source_sha256 : String
  pub source_revision : String
  pub amount : String
  pub quantity : String
  pub coverage_state : String
  pub confirmed_by : String
  pub confirmed_at : String
  pub reason : String

-- A reference of a draft: confirmed evidence, or a text.
pub data EvidenceReference : Type 0 where
  evidence : VoucherEvidenceReference → EvidenceReference
  named_evidence : String → EvidenceReference

-- `direction` is a text here: it may be empty.
pub record VoucherLineDecision : Type 0 where
  pub line_id : String
  pub account_code : String
  pub aux : Dict String
  pub line_role : LineRole
  pub summary : String
  pub direction : String
  pub amount : String
  pub source_line_ids : List String
  pub allocation_ids : List String

pub record VoucherDecisionPatch : Type 0 where
  pub voucher_key : String
  pub expected_store_revision : ℕ
  pub expected_proposal_revision_hash : String
  pub command_id : String
  pub decided_by : String
  pub business_class : String
  pub payment_state : String
  pub payment_evidence_refs : List VoucherEvidenceReference
  pub tax_treatment : TaxTreatment
  pub tax_evidence_refs : List VoucherEvidenceReference
  pub receiving_state : String
  pub receiving_evidence_refs : List VoucherEvidenceReference
  pub project_allocations : List VoucherProjectAllocation
  pub lines : List VoucherLineDecision

-- Also the shape of a status item's `snapshot`, which is the dump of a draft.
pub record VoucherDraft : Type 0 where
  pub voucher_key : String
  pub voucher_date : String
  pub voucher_type : String
  pub lines : List VoucherLine
  pub source_invoice_nos : List String
  pub source_rows : List String
  pub balance_ok : Bool
  pub review_tier : ReviewTier
  pub generated_at : String
  pub posting_key : String
  pub legacy_key : String
  pub proposal_revision_hash : String
  pub company_id : String
  pub ledger_environment : String
  pub ledger_identity_sha256 : String
  pub ledger_profile_revision : ℕ
  pub ledger_profile_sha256 : String
  pub event_type : String
  pub source_type : String
  pub period : String
  pub anchor_business_key : String
  pub key_strength : String
  pub source_file_hashes : Dict String
  pub source_lines : List VoucherSourceLine
  pub counterparty_id : String
  pub counterparty_name : String
  pub business_class : String
  pub payment_state : String
  pub payment_evidence_refs : List EvidenceReference
  pub tax_treatment : TaxTreatment
  pub tax_evidence_refs : List EvidenceReference
  pub receiving_state : String
  pub receiving_evidence_refs : List EvidenceReference
  pub project_allocations : List VoucherProjectAllocation
  pub line_decision_templates : List VoucherLineDecision
  pub decision_confirmed_by : String
  pub decision_confirmed_at : String
  pub proposal_hash_version : ℕ
  pub rule_ids : List String
  pub rule_fingerprints : List String
  pub rules_version : String
  pub rule_resolutions : List VoucherRuleResolution
  pub mapping_resolution_sha256 : String
  pub account_table_sha256 : String
  pub aux_catalog_sha256 : String
  pub suggestion_source : SuggestionSource
  pub execution_readiness : ExecutionReadiness
  pub blockers : List (Dict Json)
