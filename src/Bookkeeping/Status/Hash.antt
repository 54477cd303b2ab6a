-- ===== src/Bookkeeping/Status/Hash.antt =====
-- `voucher_draft_key`, `posting_key`, `proposal_revision_hash`.
use Prim.Native.String.{◌++◌}
use invoice_hub.Prelude.{String, ltb, ◌==◌, if◌then◌else◌}
use invoice_hub.Prelude.Text.{strip, or_else}
use invoice_hub.Domain.{VoucherDraft}
use invoice_hub.Bookkeeping.Status.Store.{Host, StablePayload, StableRules, resolved, versioned}

-- `KEY_SEPARATOR`
abbrev pub key_separator : String
key_separator = "\u{1f}"

-- `KEY_SEPARATOR.join(value.strip() for value in (a, b, c))`
unfoldable pub joined_key : String → String → String → String
joined_key a b c = strip a ++ key_separator ++ strip b ++ key_separator ++ strip c

unfoldable pub voucher_draft_key : Host → String → String → String → String
unfolding joined_key
voucher_draft_key host invoice_number voucher_type rules_version =
    host.sha1 (joined_key invoice_number voucher_type rules_version)

unfoldable pub posting_key : Host → String → String → String → String
unfolding joined_key
posting_key host company_id event_type anchor_business_key =
    host.sha256 (joined_key company_id event_type anchor_business_key)

abbrev stable_rules : VoucherDraft → StableRules
stable_rules d =
    let hash_version = if d.proposal_hash_version == 0 then 1 else d.proposal_hash_version in
    if ltb hash_version 2
    then versioned d.rules_version
    else resolved hash_version d.rule_resolutions d.mapping_resolution_sha256

unfoldable pub stable_payload : VoucherDraft → StablePayload
stable_payload d = record {
  company_id = d.company_id;
  ledger_environment = d.ledger_environment;
  ledger_identity_sha256 = d.ledger_identity_sha256;
  ledger_profile_revision = d.ledger_profile_revision;
  ledger_profile_sha256 = d.ledger_profile_sha256;
  event_type = or_else d.event_type "purchase_recognition";
  source_type = or_else d.source_type "purchase_invoice";
  anchor_business_key = d.anchor_business_key;
  key_strength = or_else d.key_strength "strong";
  voucher_date = d.voucher_date;
  voucher_type = d.voucher_type;
  source_invoice_nos = d.source_invoice_nos;
  source_file_hashes = d.source_file_hashes;
  source_lines = d.source_lines;
  counterparty_id = d.counterparty_id;
  counterparty_name = d.counterparty_name;
  business_class = d.business_class;
  payment_state = or_else d.payment_state "unknown";
  payment_evidence_refs = d.payment_evidence_refs;
  tax_treatment = d.tax_treatment;
  tax_evidence_refs = d.tax_evidence_refs;
  receiving_state = or_else d.receiving_state "missing";
  receiving_evidence_refs = d.receiving_evidence_refs;
  project_allocations = d.project_allocations;
  line_decision_templates = d.line_decision_templates;
  decision_confirmed_by = d.decision_confirmed_by;
  decision_confirmed_at = d.decision_confirmed_at;
  rule_ids = d.rule_ids;
  rule_fingerprints = d.rule_fingerprints;
  account_table_sha256 = d.account_table_sha256;
  aux_catalog_sha256 = d.aux_catalog_sha256;
  lines = d.lines;
  rules = stable_rules d;
}

unfoldable pub proposal_revision_hash : Host → VoucherDraft → String
unfolding stable_payload
proposal_revision_hash host d = host.stable_sha256 (stable_payload d)
