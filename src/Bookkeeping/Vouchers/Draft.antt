-- ===== src/Bookkeeping/Vouchers/Draft.antt =====
-- `_draft_from_group`: the draft that the rows of one invoice give.
use Prim.Native.String.{◌++◌ as append}
use invoice_hub.Prelude.Sorting.{sorted}
use invoice_hub.Bookkeeping.Mapping.Match.{rule_ids}
use invoice_hub.Prelude.Text.{is_empty_text, or_else, take_text}
use invoice_hub.Bookkeeping.Mapping.Resolve.{fingerprints}
use invoice_hub.Bookkeeping.Decisions.Lines.{direction_eq}
use invoice_hub.Bookkeeping.Vouchers.Row.{
  Row, as_decimal, clean, difference, exceeds_tail, field_of, first_non_empty, money_text,
}
use invoice_hub.Bookkeeping.Result.{Result, ok, ◌>>=◌}
use invoice_hub.Bookkeeping.Status.{Host, posting_key, proposal_revision_hash, voucher_draft_key}
use invoice_hub.Bookkeeping.Vouchers.Facts.{GroupFacts, RowFacts, VoucherHost, all_facts}
use invoice_hub.Domain.{
  Direction, ExecutionReadiness, ReviewTier, VoucherDraft, VoucherLine, ai, ai_suggested, auto,
  blocked, credit, debit, deterministic, forced_manual, needs_review, pending,
}
use invoice_hub.Prelude.Dict.{Dict, insert, values}
use invoice_hub.Bookkeeping.Money.{Decimal, decimal_add, decimal_eq, zero_decimal}
use invoice_hub.Prelude.{
  Bool, List, Option, String, [], any, elem, if◌then◌else◌, is_empty, is_some, length, ltb, map,
  none, not, some, ℕ, ◌&&◌, ◌++◌, ◌||◌, ◌∷◌,
}
use invoice_hub.Bookkeeping.Mapping.Rule.{AccountMappingRule}

-- The arguments that all groups of a call share.
pub record DraftHeader : Type 0 where
  pub rules : List AccountMappingRule
  pub account_table : Dict String
  pub rules_version : String
  pub generated_at : String
  pub company_id : String
  pub account_table_sha256 : String
  pub aux_catalog_sha256 : String
  pub ledger_environment : String
  pub ledger_identity_sha256 : String
  pub ledger_profile_revision : ℕ
  pub ledger_profile_sha256 : String
  pub account_required_aux : Dict (List String)

-- `row.get(field)` of each row
unfoldable pub column : String → List (ℕ × Row) → List String
column field [] = []
column field ((_, row) ∷ rows) = field_of row field ∷ column field rows

-- `{_clean(value) for value in values if _clean(value)}`
unfoldable pub clean_set : List String → List String
clean_set [] = []
clean_set (v ∷ vs) =
    let rest = clean_set vs in
    let value = clean v in if is_empty_text value || elem value rest then rest else value ∷ rest

unfoldable pub hash_of : Option (String → String) → String → String
hash_of none name = ""
hash_of (some hash) name = hash name

-- `_source_file_hashes`
unfoldable pub source_file_hashes : VoucherHost → List (ℕ × Row) → Dict String
source_file_hashes host rows =
    map (λ name. (name, hash_of host.source_hash name)) (sorted (clean_set (column "源文件" rows)))

abbrev pub first_text : List String → String
first_text [] = ""
first_text (v ∷ _) = v

unfoldable pub group_facts : VoucherHost → DraftHeader → String → List (ℕ × Row) → GroupFacts
group_facts host header invoice_number rows = record {
  invoice_number = invoice_number;
  seller = first_non_empty (column "销售方" rows);
  invoice_date = clean (first_text (column "开票日期" rows));
  source_file_hashes = source_file_hashes host rows;
  rules = header.rules;
  account_table = header.account_table;
  account_required_aux = header.account_required_aux;
}

-- The reasons of a group before its rows are read.
unfoldable pub group_reasons : String → List (ℕ × Row) → List String
group_reasons invoice_number rows =
    (if is_empty_text invoice_number then "发票号码缺失" ∷ [] else [])
    ++ (if ltb 1 (length (clean_set (column "销售方" rows))) then "同一发票存在多个销售方，必须人工核对" ∷ [] else [])

unfoldable pub row_reasons : List RowFacts → List String
row_reasons [] = []
row_reasons (f ∷ fs) = f.reasons ++ row_reasons fs

unfoldable pub decimal_sum : (RowFacts → Decimal) → Decimal → List RowFacts → Decimal
decimal_sum column_of total [] = total
decimal_sum column_of total (f ∷ fs) = decimal_sum column_of (decimal_add total (column_of f)) fs

-- `aggregate_diff`
unfoldable pub aggregate_diff : List RowFacts → Decimal
aggregate_diff fs =
    difference (decimal_sum (λ f. f.amounts.amount) zero_decimal fs)
      (decimal_sum (λ f. f.amounts.tax_amount) zero_decimal fs)
      (decimal_sum (λ f. f.amounts.total) zero_decimal fs)

unfoldable pub aggregate_reasons : Decimal → List String
aggregate_reasons diff =
    if exceeds_tail diff then append "发票金额尾差超过 0.01: " (money_text diff) ∷ [] else []

-- All reasons, in the order in which they are added.
unfoldable pub draft_reasons : String → List (ℕ × Row) → List RowFacts → List String
draft_reasons invoice_number rows fs =
    group_reasons invoice_number rows ++ (row_reasons fs ++ aggregate_reasons (aggregate_diff fs))

unfoldable pub matched_rules : List RowFacts → List AccountMappingRule
matched_rules [] = []
matched_rules (f ∷ fs) =
    let rest = matched_rules fs in elim f.rule [ none ↦ rest | some rule ↦ rule ∷ rest ]

-- `{rule.rule_id: rule for rule in rules}`
unfoldable pub rules_by_id :
    List AccountMappingRule → Dict AccountMappingRule → Dict AccountMappingRule
rules_by_id [] d = d
rules_by_id (r ∷ rs) d = rules_by_id rs (insert r.rule_id r d)

-- `unmatched_rule_count` is not zero.
unfoldable pub some_unmatched : List RowFacts → Bool
some_unmatched fs = any (λ f. not (is_some f.rule)) fs

-- `review_tier`: by the reasons, then by the rows that no rule matched.
unfoldable pub tier_of : Bool → Bool → ReviewTier
tier_of no_reasons some_row_unmatched =
    if not no_reasons then forced_manual else if some_row_unmatched then ai_suggested else auto

unfoldable pub readiness_of : ReviewTier → ExecutionReadiness
readiness_of forced_manual = blocked
readiness_of _ = needs_review

-- `sum(_as_decimal(line.amount) for line in lines if line.direction == direction)`, from a total on
unfoldable pub side_total : Direction → Decimal → List VoucherLine → Result Decimal
side_total side total [] = ok total
side_total side total (l ∷ ls) =
    let skipped = side_total side total ls in
    if direction_eq l.direction side
    then as_decimal l.amount >>= (λ d. side_total side (decimal_add total d) ls)
    else skipped

unfoldable pub all_lines : List RowFacts → List VoucherLine
all_lines [] = []
all_lines (f ∷ fs) = f.lines ++ all_lines fs

-- The draft, but for its hash.
unfoldable pub unsealed_draft :
    VoucherHost
    → DraftHeader
    → String
    → String
    → List (ℕ × Row)
    → List RowFacts
    → List String
    → Bool
    → VoucherDraft
unsealed_draft host header invoice_number weak_anchor rows fs fingerprints_of_rules balanced =
    let group = group_facts host header invoice_number rows in
    let reasons = draft_reasons invoice_number rows fs in
    let tier = tier_of (is_empty reasons) (some_unmatched fs) in
    let anchor = or_else invoice_number weak_anchor in
    let key = posting_key host.base header.company_id "purchase_recognition" anchor in
    let resolutions = map (λ f. f.resolution) fs in
    record {
      voucher_key = key;
      voucher_date = group.invoice_date;
      voucher_type = "记";
      lines = all_lines fs;
      source_invoice_nos = if is_empty_text invoice_number then [] else invoice_number ∷ [];
      source_rows = map (λ f. f.row_marker) fs ++ map (λ r. append "原因: " r) reasons;
      balance_ok = balanced && is_empty reasons;
      review_tier = tier;
      generated_at = header.generated_at;
      posting_key = key;
      legacy_key = voucher_draft_key host.base invoice_number "记" header.rules_version;
      proposal_revision_hash = "";
      company_id = header.company_id;
      ledger_environment = header.ledger_environment;
      ledger_identity_sha256 = header.ledger_identity_sha256;
      ledger_profile_revision = header.ledger_profile_revision;
      ledger_profile_sha256 = header.ledger_profile_sha256;
      event_type = "purchase_recognition";
      source_type = "purchase_invoice";
      period = take_text 7 group.invoice_date;
      anchor_business_key = anchor;
      key_strength = if is_empty_text invoice_number then "weak" else "strong";
      source_file_hashes = group.source_file_hashes;
      source_lines = map (λ f. f.source_line) fs;
      counterparty_id = "";
      counterparty_name = group.seller;
      business_class = "";
      payment_state = "unknown";
      payment_evidence_refs = [];
      tax_treatment = pending;
      tax_evidence_refs = [];
      receiving_state = "missing";
      receiving_evidence_refs = [];
      project_allocations = map (λ f. f.allocation) fs;
      line_decision_templates = [];
      decision_confirmed_by = "";
      decision_confirmed_at = "";
      proposal_hash_version = 2;
      rule_ids = rule_ids (values (rules_by_id (matched_rules fs) []));
      rule_fingerprints = fingerprints_of_rules;
      rules_version = header.rules_version;
      rule_resolutions = resolutions;
      mapping_resolution_sha256 = host.resolutions_sha256 resolutions;
      account_table_sha256 = header.account_table_sha256;
      aux_catalog_sha256 = header.aux_catalog_sha256;
      suggestion_source = if some_unmatched fs then ai else deterministic;
      execution_readiness = readiness_of tier;
      blockers = [];
    }

-- `draft.model_copy(update={"proposal_revision_hash": proposal_revision_hash(draft)})`
unfoldable pub sealed : Host → VoucherDraft → VoucherDraft
sealed host d = record d { proposal_revision_hash = proposal_revision_hash host d }

-- `_draft_from_group`
unfoldable pub draft_from_group :
    VoucherHost → DraftHeader → String → String → List (ℕ × Row) → Result VoucherDraft
draft_from_group host header invoice_number weak_anchor rows = do
  fs ← all_facts host (group_facts host header invoice_number rows) rows
  debit_total ← side_total debit zero_decimal (all_lines fs)
  credit_total ← side_total credit zero_decimal (all_lines fs)
  prints ← fingerprints host.mapping (values (rules_by_id (matched_rules fs) []))
  ok (
      sealed host.base (
        unsealed_draft host header invoice_number weak_anchor rows fs prints
          (decimal_eq debit_total credit_total)))
