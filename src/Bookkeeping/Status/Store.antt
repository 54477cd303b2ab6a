-- ===== src/Bookkeeping/Status/Store.antt =====
-- `VoucherStatusStore`, `_write_store_unlocked` and `mutate_voucher_status`.
use invoice_hub.Prelude.{ℕ, ◌+◌, String, Bool, Option, none, some, List, ltb, not, ◌==◌}
use invoice_hub.Prelude.Dict.{Dict}
use invoice_hub.Prelude.Text.{or_else}
use invoice_hub.Domain.{
  VoucherStatusItem, ImportBatch, VoucherLine, VoucherSourceLine, EvidenceReference,
  VoucherProjectAllocation, VoucherLineDecision, VoucherRuleResolution, TaxTreatment, LineRole,
  Detail,
}
use invoice_hub.Bookkeeping.Result.{
  Result, ok, revision_conflict, migration_required, raise_if, ◌>>=◌, ◌>>◌,
}

-- What the hash of a proposal depends on from version 2 on, and before it.
pub data StableRules : Type 0 where
  resolved : ℕ → List VoucherRuleResolution → String → StableRules
  versioned : String → StableRules

-- The dictionary `stable` of `proposal_revision_hash`.
pub record StablePayload : Type 0 where
  pub company_id : String
  pub ledger_environment : String
  pub ledger_identity_sha256 : String
  pub ledger_profile_revision : ℕ
  pub ledger_profile_sha256 : String
  pub event_type : String
  pub source_type : String
  pub anchor_business_key : String
  pub key_strength : String
  pub voucher_date : String
  pub voucher_type : String
  pub source_invoice_nos : List String
  pub source_file_hashes : Dict String
  pub source_lines : List VoucherSourceLine
  pub counterparty_id : String
  pub counterparty_name : String
  pub business_class : String
  pub payment_state : String
  pub payment_evidence_refs : List EvidenceReference
  pub tax_treatment : TaxTreatment
  pub tax_evidence_refs : List EvidenceReference
  pub receiving_state : String
  pub receiving_evidence_refs : List EvidenceReference
  pub project_allocations : List VoucherProjectAllocation
  pub line_decision_templates : List VoucherLineDecision
  pub decision_confirmed_by : String
  pub decision_confirmed_at : String
  pub rule_ids : List String
  pub rule_fingerprints : List String
  pub account_table_sha256 : String
  pub aux_catalog_sha256 : String
  pub lines : List VoucherLine
  pub rules : StableRules

-- What an operation takes from outside the program: the clock, `uuid`, `hashlib`, `repr`.
pub record Host : Type 0 where
  pub now : String
  pub fresh_company_id : String
  pub sha1 : String → String
  pub sha256 : String → String
  pub stable_sha256 : StablePayload → String
  pub line_sha256 : String → Option String → LineRole → String
  pub repr : Detail → String

pub record VoucherStatusStore : Type 0 where
  pub version : ℕ
  pub revision : ℕ
  pub company_id : String
  pub ledger_environment : String
  pub ledger_identity_sha256 : String
  pub ledger_profile_sha256 : String
  pub updated_at : String
  pub items : Dict VoucherStatusItem
  pub batches : Dict ImportBatch

abbrev pub schema_version : ℕ
schema_version = 2

-- `current.migration_required`
abbrev pub needs_migration : VoucherStatusStore → Bool
needs_migration s = ltb s.version schema_version

-- The keyword arguments of `_write_store_unlocked`.
pub record Overrides : Type 0 where
  pub company_id : Option String
  pub ledger_environment : Option String
  pub ledger_identity_sha256 : Option String
  pub ledger_profile_sha256 : Option String

abbrev pub no_overrides : Overrides
no_overrides = record {
  company_id = none;
  ledger_environment = none;
  ledger_identity_sha256 = none;
  ledger_profile_sha256 = none;
}

-- `a if a is not None else b`
abbrev pub given_or : Option String → String → String
given_or none b = b
given_or (some a) b = a

-- The store that `_write_store_unlocked` writes and returns.
unfoldable pub write_store :
    Host
    → VoucherStatusStore
    → Dict VoucherStatusItem
    → Dict ImportBatch
    → Overrides
    → VoucherStatusStore
write_store host current items batches o = record {
  version = schema_version;
  revision = current.revision + 1;
  company_id =
      or_else (given_or o.company_id "") (or_else current.company_id host.fresh_company_id);
  ledger_environment = given_or o.ledger_environment current.ledger_environment;
  ledger_identity_sha256 = given_or o.ledger_identity_sha256 current.ledger_identity_sha256;
  ledger_profile_sha256 = given_or o.ledger_profile_sha256 current.ledger_profile_sha256;
  updated_at = host.now;
  items = items;
  batches = batches;
}

-- What a mutator returns beside its result: the very dictionaries of the store, or new ones.
pub data Change : Type 0 where
  same : Change
  replaced : Dict VoucherStatusItem → Dict ImportBatch → Change

-- `expected_revision is not None and current.revision != expected_revision`
abbrev pub revision_guard : Option ℕ → VoucherStatusStore → Result (Unit {0})
revision_guard none current = ok tt
revision_guard (some expected) current =
    raise_if (not (current.revision == expected)) (revision_conflict expected current.revision)

abbrev pub commit {ℓ} :
    {T : Type ℓ} → Host → VoucherStatusStore → Change × T → VoucherStatusStore × T
commit host current (same, result) = (current, result)
commit host current (replaced items batches, result) =
    (write_store host current items batches no_overrides, result)

unfoldable pub mutate_voucher_status {ℓ} :
    {T : Type ℓ}
    → Host
    → (VoucherStatusStore → Result (Change × T))
    → Option ℕ
    → VoucherStatusStore
    → Result (VoucherStatusStore × T)
mutate_voucher_status host mutator expected current = do
  raise_if (needs_migration current) migration_required
  revision_guard expected current
  changed ← mutator current
  ok (commit host current changed)
