-- ===== src/Bookkeeping/Mapping/Rule.antt =====
-- `AccountMappingRule` and its normalized form.
use invoice_hub.Prelude.Int.{ℤ}
use invoice_hub.Bookkeeping.Status.Hash.{key_separator}
use invoice_hub.Prelude.Text.{is_empty_text, is_space, strip}
use invoice_hub.Bookkeeping.Result.{
  Result, bad_date, date_order, ok, or_raise, raise_if, ◌>>=◌, ◌>>◌,
}
use invoice_hub.Prelude.Dict.{Dict}
use invoice_hub.Prelude.{Bool, List, Option, String, false, if◌then◌else◌, not, text_lt, true, ◌&&◌}
use Prim.Native.String.{◌++◌ as append}

pub data Activation : Type 0 where
  pending_reconfirmation active disabled : Activation

pub data RuleSource : Type 0 where
  manual ai_confirmed : RuleSource

pub record AccountMappingRule : Type 0 where
  pub rule_id : String
  pub match_seller : String
  pub match_source_type : String
  pub match_item : String
  pub match_internal_project : String
  pub effective_from : String
  pub effective_to : String
  pub priority : ℤ
  pub business_class : String
  pub debit_account_code : String
  pub debit_account_name : String
  pub credit_account_code : String
  pub credit_account_name : String
  pub tax_account_code : String
  pub aux_dimensions : Dict String
  pub activation_state : Activation
  pub legacy_rule_ids : List String
  pub source : RuleSource
  pub confirmed_at : String
  pub confirmed_by : String

-- `MappingStoreBinding`: the ledger that a store of rules belongs to.
pub record Binding : Type 0 where
  pub company_id : String
  pub ledger_environment : String
  pub ledger_identity_sha256 : String
  pub ledger_profile_sha256 : String
  pub account_table_sha256 : String
  pub aux_catalog_sha256 : String

-- From outside: the clock, `hashlib.sha1`, `canonical_sha256` of a rule and of a list of rules with
-- a binding, `str` of an integer, and `date.fromisoformat(text).isoformat()`, `none` where that
-- raises.
pub record MappingHost : Type 0 where
  pub now : String
  pub rule_sha256 : AccountMappingRule → String
  pub rules_sha256 : List AccountMappingRule → Option Binding → String
  pub sha1 : String → String
  pub int_text : ℤ → String
  pub iso_date : String → Option String

-- `re.sub(r"\s+", " ", text)`: `after_space` says whether the text so far ends in a space.
unfoldable pub collapse : Bool → String → String
collapse after_space String.[] = String.[]
collapse after_space (String.◌∷◌ c s) =
    let spaced = collapse true s in
    let rest = collapse false s in
    if is_space c then if after_space then spaced else append " " spaced else String.◌∷◌ c rest

-- `normalize_match_text`: the spaces that it replaces first are white space anyway.
unfoldable pub normalize_match_text : String → String
normalize_match_text value = strip (collapse false (strip value))

-- `_normalized_iso_date`
unfoldable pub normalized_iso_date : MappingHost → String → Result String
normalized_iso_date host value =
    let text = normalize_match_text value in
    if is_empty_text text then ok "" else or_raise (host.iso_date text) bad_date

-- `account_mapping_rule_id`
unfoldable pub account_mapping_rule_id : MappingHost → AccountMappingRule → String
account_mapping_rule_id host rule =
    let sep = key_separator in
    host.sha1 (
      append (normalize_match_text rule.match_source_type) (
        append sep (
          append (normalize_match_text rule.match_seller) (
            append sep (
              append (normalize_match_text rule.match_item) (
                append sep (
                  append (normalize_match_text rule.match_internal_project) (
                    append sep (
                      append (normalize_match_text rule.effective_from) (
                        append sep (
                          append (normalize_match_text rule.effective_to)
                            (append sep (host.int_text rule.priority)))))))))))))

-- The rule with its scope normalized, before its identifier.
abbrev pub scoped_rule : AccountMappingRule → String → String → AccountMappingRule
scoped_rule rule from to = record rule {
  match_source_type = normalize_match_text rule.match_source_type;
  match_seller = normalize_match_text rule.match_seller;
  match_item = normalize_match_text rule.match_item;
  match_internal_project = normalize_match_text rule.match_internal_project;
  effective_from = from;
  effective_to = to;
}

-- `_normalized_rule`
unfoldable pub normalized_rule : MappingHost → AccountMappingRule → Result AccountMappingRule
normalized_rule host rule = do
  from ← normalized_iso_date host rule.effective_from
  to ← normalized_iso_date host rule.effective_to
  raise_if (not (is_empty_text from) && not (is_empty_text to) && text_lt to from) date_order
  let scoped = scoped_rule rule from to
  ok (record scoped { rule_id = account_mapping_rule_id host scoped })

-- `_mapping_rule_semantic_payload`: the normalized rule without who confirmed it and when.
unfoldable pub semantic_payload : MappingHost → AccountMappingRule → Result AccountMappingRule
semantic_payload host rule = do
  normalized ← normalized_rule host rule
  ok (record normalized { confirmed_at = ""; confirmed_by = "" })

-- `mapping_rule_fingerprint`
unfoldable pub mapping_rule_fingerprint : MappingHost → AccountMappingRule → Result String
mapping_rule_fingerprint host rule = do
  payload ← semantic_payload host rule
  ok (host.rule_sha256 payload)
