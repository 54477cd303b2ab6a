-- ===== src/Bookkeeping/Tests/Rules.antt =====
-- The theorems on account rules, at two rules.
use invoice_hub.Prelude.Int.{pos}
use invoice_hub.Bookkeeping.Tests.Data.{is_ok, ok_value, value_of}
use invoice_hub.Bookkeeping.Mapping.Append.{append_rule}
use invoice_hub.Bookkeeping.Result.{Result, ok}
use invoice_hub.Prelude.{Option, String, [], at_head, false, none, refl, some, true, ◌∷◌, ◌≡◌, ◌⊎◌}
use invoice_hub.Bookkeeping.Mapping.Protected.{
  IsWritten, append_rule-IsProtected, write_mapping-IsWritten,
}
use invoice_hub.Bookkeeping.Mapping.Found.{IsProtected}
use invoice_hub.Bookkeeping.Mapping.Best.{IsBest, match_account_rule-IsBest}
use invoice_hub.Bookkeeping.Mapping.Match.{Context, listed, match_account_rule}
use invoice_hub.Bookkeeping.Mapping.Store.{AccountMappingStore, write_mapping}
use invoice_hub.Bookkeeping.Mapping.Rule.{
  AccountMappingRule, MappingHost, RuleSource, active, ai_confirmed,
}

abbrev pub test_mapping_host : MappingHost
test_mapping_host = record {
  now = "2026-01-02T03:04:05";
  rule_sha256 = λ r. r.rule_id;
  rules_sha256 = λ rs b. "rules";
  sha1 = λ s. s;
  int_text = λ z. "0";
  iso_date = λ s. some s;
}

abbrev pub rule_for : String → String → String → RuleSource → AccountMappingRule
rule_for rule_id seller item origin = record {
  rule_id = rule_id;
  match_seller = seller;
  match_source_type = "";
  match_item = item;
  match_internal_project = "";
  effective_from = "";
  effective_to = "";
  priority = pos 0;
  business_class = "";
  debit_account_code = "1001";
  debit_account_name = "stock";
  credit_account_code = "2202";
  credit_account_name = "payable";
  tax_account_code = "2221";
  aux_dimensions = [];
  activation_state = active;
  legacy_rule_ids = [];
  source = origin;
  confirmed_at = "";
  confirmed_by = "";
}

abbrev wide_rule : AccountMappingRule
wide_rule = rule_for "" "seller" "" ai_confirmed

abbrev narrow_rule : AccountMappingRule
narrow_rule = rule_for "" "seller" "item" RuleSource.manual

abbrev test_context : Context
test_context = record {
  seller = "seller";
  internal_project = "";
  source_type = "purchase_invoice";
  item = "item";
  effective_date = "";
}

abbrev chosen : Result (Option AccountMappingRule)
chosen =
    match_account_rule test_mapping_host (listed (wide_rule ∷ narrow_rule ∷ [])) test_context false

abbrev chosen_or : Option AccountMappingRule → AccountMappingRule
chosen_or none = wide_rule
chosen_or (some rule) = rule

abbrev chosen_value : AccountMappingRule
chosen_value = chosen_or (value_of chosen none)

chosen_ok : chosen ≡ ok (some chosen_value)
unfolding match_account_rule invoice_hub.Bookkeeping.Mapping.Match.rules_of
    invoice_hub.Bookkeeping.Mapping.Match.normalized_rules
    invoice_hub.Bookkeeping.Mapping.Rule.normalized_rule
    invoice_hub.Bookkeeping.Mapping.Rule.normalized_iso_date
    invoice_hub.Bookkeeping.Mapping.Rule.normalize_match_text invoice_hub.Prelude.Text.strip
    invoice_hub.Bookkeeping.Mapping.Rule.collapse
    invoice_hub.Bookkeeping.Mapping.Match.applicable_rules
    invoice_hub.Bookkeeping.Mapping.Match.rule_applies_to_context
    invoice_hub.Bookkeeping.Mapping.Match.applies_on
    invoice_hub.Bookkeeping.Mapping.Match.scope_fits
    invoice_hub.Bookkeeping.Mapping.Match.chosen_rule
    invoice_hub.Bookkeeping.Mapping.Match.finalists
    invoice_hub.Bookkeeping.Mapping.Match.period_fits invoice_hub.Bookkeeping.Mapping.Match.rank_eq
    invoice_hub.Bookkeeping.Mapping.Match.rule_rank invoice_hub.Bookkeeping.Mapping.Match.best_rank
    invoice_hub.Bookkeeping.Mapping.Match.first_by_id invoice_hub.Bookkeeping.Mapping.Match.rank_lt
    invoice_hub.Bookkeeping.Mapping.Match.rule_specificity
    invoice_hub.Bookkeeping.Mapping.Match.same_target
    invoice_hub.Bookkeeping.Mapping.Rule.account_mapping_rule_id invoice_hub.Prelude.Dict.lookup
    invoice_hub.Prelude.Sorting.sorted invoice_hub.Prelude.Text.lstrip
    invoice_hub.Prelude.Text.rstrip
chosen_ok = refl

match_account_rule-IsBest_example :
    IsBest test_mapping_host (wide_rule ∷ narrow_rule ∷ []) test_context chosen_value
match_account_rule-IsBest_example =
    match_account_rule-IsBest test_mapping_host (wide_rule ∷ narrow_rule ∷ []) test_context
      chosen_value chosen_ok

abbrev empty_mapping : AccountMappingStore
empty_mapping = record {
  version = 2;
  revision = 4;
  updated_at = "";
  rules_version = "";
  rules = [];
  binding = none;
  migration_receipts = [];
}

abbrev written : Result AccountMappingStore
written = write_mapping test_mapping_host (wide_rule ∷ narrow_rule ∷ []) (some 4) none empty_mapping

abbrev written_value : AccountMappingStore
written_value = value_of written empty_mapping

written_ok : is_ok written ≡ true
unfolding write_mapping invoice_hub.Bookkeeping.Mapping.Store.mapping_guards
    invoice_hub.Bookkeeping.Mapping.Store.distinct_rules
    invoice_hub.Bookkeeping.Mapping.Match.normalized_rules
    invoice_hub.Bookkeeping.Mapping.Rule.normalized_rule
    invoice_hub.Bookkeeping.Mapping.Rule.normalized_iso_date
    invoice_hub.Bookkeeping.Mapping.Rule.normalize_match_text invoice_hub.Prelude.Text.strip
    invoice_hub.Bookkeeping.Mapping.Rule.collapse
    invoice_hub.Bookkeeping.Decisions.Allocations.has_duplicates
    invoice_hub.Bookkeeping.Mapping.Rule.account_mapping_rule_id
    invoice_hub.Bookkeeping.Mapping.Store.mapping_rules_version
    invoice_hub.Bookkeeping.Mapping.Store.semantic_payloads
    invoice_hub.Bookkeeping.Mapping.Store.sorted_by_id
    invoice_hub.Bookkeeping.Mapping.Rule.semantic_payload
written_ok = refl

write_mapping-IsWritten_example :
    IsWritten test_mapping_host (wide_rule ∷ narrow_rule ∷ []) empty_mapping written_value
write_mapping-IsWritten_example =
    write_mapping-IsWritten test_mapping_host (wide_rule ∷ narrow_rule ∷ []) (some 4) none
      empty_mapping written_value (ok_value written empty_mapping written_ok)

-- A store of one rule, which a person confirmed.
abbrev one_rule : AccountMappingStore
one_rule = record empty_mapping { rules = rule_for "r1" "seller" "item" RuleSource.manual ∷ [] }

abbrev appended : Result (AccountMappingStore × AccountMappingRule)
appended = append_rule test_mapping_host wide_rule (some 4) "" none one_rule

abbrev appended_value : AccountMappingStore × AccountMappingRule
appended_value = value_of appended (one_rule, wide_rule)

appended_ok : is_ok appended ≡ true
unfolding append_rule invoice_hub.Bookkeeping.Mapping.Store.mapping_guards
    invoice_hub.Bookkeeping.Mapping.Rule.normalized_rule
    invoice_hub.Bookkeeping.Mapping.Rule.normalized_iso_date
    invoice_hub.Bookkeeping.Mapping.Rule.normalize_match_text invoice_hub.Prelude.Text.strip
    invoice_hub.Bookkeeping.Mapping.Rule.collapse
    invoice_hub.Bookkeeping.Mapping.Append.append_unless
    invoice_hub.Bookkeeping.Mapping.Append.is_present
    invoice_hub.Bookkeeping.Mapping.Append.find_rule
    invoice_hub.Bookkeeping.Mapping.Rule.account_mapping_rule_id
    invoice_hub.Bookkeeping.Mapping.Append.append_new
    invoice_hub.Bookkeeping.Mapping.Append.replacement_guards write_mapping
    invoice_hub.Bookkeeping.Mapping.Store.distinct_rules
    invoice_hub.Bookkeeping.Mapping.Match.normalized_rules
    invoice_hub.Bookkeeping.Mapping.Append.replaced_rules
    invoice_hub.Bookkeeping.Decisions.Allocations.has_duplicates
    invoice_hub.Bookkeeping.Mapping.Append.same_signature
    invoice_hub.Bookkeeping.Mapping.Match.same_target
    invoice_hub.Bookkeeping.Mapping.Rule.semantic_payload
    invoice_hub.Bookkeeping.Mapping.Store.binding_eq
    invoice_hub.Bookkeeping.Mapping.Store.mapping_rules_version
    invoice_hub.Bookkeeping.Mapping.Store.semantic_payloads
    invoice_hub.Bookkeeping.Mapping.Store.sorted_by_id invoice_hub.Prelude.Dict.lookup
    invoice_hub.Prelude.Text.lstrip invoice_hub.Prelude.Text.rstrip
appended_ok = refl

append_rule-IsProtected_example :
    (appended_value.0 ≡ one_rule)
    ⊎ IsProtected test_mapping_host ""
        (rule_for "r1" "seller" "item" RuleSource.manual)
        appended_value.0
        appended_value.1
unfolding invoice_hub.Bookkeeping.Decisions.Allocations.has_duplicates
append_rule-IsProtected_example =
    append_rule-IsProtected test_mapping_host wide_rule (some 4) "" none one_rule appended_value.0
      appended_value.1 (rule_for "r1" "seller" "item" RuleSource.manual)
      (ok_value appended (one_rule, wide_rule) appended_ok) refl (at_head refl) refl
