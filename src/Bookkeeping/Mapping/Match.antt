-- ===== src/Bookkeeping/Mapping/Match.antt =====
-- `rule_applies_to_context`, `_rule_rank` and `match_account_rule`.
use invoice_hub.Prelude.Sorting.{sorted}
use invoice_hub.Prelude.Dict.{Dict, lookup}
use invoice_hub.Prelude.Text.{is_empty_text, or_else}
use invoice_hub.Prelude.Int.{eqb_ℤ, ltb_ℤ, ℤ}
use invoice_hub.Bookkeeping.Result.{
  Result, ok, ◌>>=◌, ◌>>◌, err, mapping_ambiguous, mapping_unbound, raise_if,
}
use invoice_hub.Prelude.{
  Bool, List, String, [], false, if◌then◌else◌, ltb, not, str_eq, text_lt, true, ℕ, ◌&&◌, ◌+◌, ◌==◌,
  ◌||◌, ◌∷◌, Option, all, none, select, some,
}
use invoice_hub.Bookkeeping.Mapping.Rule.{
  AccountMappingRule, Activation, MappingHost, RuleSource, active, ai_confirmed, disabled, manual,
  normalize_match_text, normalized_iso_date, normalized_rule, pending_reconfirmation,
}

-- The arguments that a rule is matched against.
pub record Context : Type 0 where
  pub seller : String
  pub internal_project : String
  pub source_type : String
  pub item : String
  pub effective_date : String

-- `not expected or expected == value`
abbrev pub field_fits : String → String → Bool
field_fits expected value = is_empty_text expected || str_eq expected (normalize_match_text value)

unfoldable pub scope_fits : AccountMappingRule → Context → Bool
scope_fits rule context =
    field_fits rule.match_source_type context.source_type
    && (field_fits rule.match_seller context.seller
        && (field_fits rule.match_item context.item
            && field_fits rule.match_internal_project context.internal_project))

abbrev pub is_active : Activation → Bool
is_active active = true
is_active pending_reconfirmation = false
is_active disabled = false

-- The period of the rule holds the date.
unfoldable pub period_fits : AccountMappingRule → String → Bool
period_fits rule day =
    (is_empty_text rule.effective_from && is_empty_text rule.effective_to
      || not (is_empty_text day))
    && ((is_empty_text rule.effective_from || not (text_lt day rule.effective_from))
        && (is_empty_text rule.effective_to || not (text_lt rule.effective_to day)))

-- The test of the period, once the scope fits.
unfoldable pub applies_on : MappingHost → AccountMappingRule → Context → Bool → Result Bool
applies_on host rule context false = ok false
applies_on host rule context true = do
  day ← normalized_iso_date host context.effective_date
  ok (period_fits rule day)

unfoldable pub rule_applies_to_context : MappingHost → AccountMappingRule → Context → Result Bool
rule_applies_to_context host rule context = do
  normalized ← normalized_rule host rule
  applies_on host normalized context
      (is_active normalized.activation_state && scope_fits normalized context)

abbrev pub given : String → ℕ
given s = if is_empty_text s then 0 else 1

-- `_rule_specificity`
unfoldable pub rule_specificity : AccountMappingRule → ℕ
rule_specificity rule =
    given rule.match_source_type
    + given rule.match_seller
    + given rule.match_item
    + given rule.match_internal_project
    + given (or_else rule.effective_from rule.effective_to)

pub record Rank : Type 0 where
  pub manual_rank : ℕ
  pub specificity : ℕ
  pub priority : ℤ

abbrev pub source_rank : RuleSource → ℕ
source_rank manual = 1
source_rank ai_confirmed = 0

-- `_rule_rank`
unfoldable pub rule_rank : AccountMappingRule → Rank
rule_rank rule = record {
  manual_rank = source_rank rule.source;
  specificity = rule_specificity rule;
  priority = rule.priority;
}

-- `a < b` on the tuples
unfoldable pub rank_lt : Rank → Rank → Bool
rank_lt a b =
    ltb a.manual_rank b.manual_rank
    || a.manual_rank == b.manual_rank
      && (ltb a.specificity b.specificity
          || a.specificity == b.specificity && ltb_ℤ a.priority b.priority)

unfoldable pub rank_eq : Rank → Rank → Bool
rank_eq a b =
    a.manual_rank == b.manual_rank
    && (a.specificity == b.specificity && eqb_ℤ a.priority b.priority)

-- `max(_rule_rank(rule) for rule in ...)`, from a first rank on
unfoldable pub best_rank : Rank → List AccountMappingRule → Rank
best_rank best [] = best
best_rank best (r ∷ rs) =
    let higher = best_rank (rule_rank r) rs in
    let kept = best_rank best rs in if rank_lt best (rule_rank r) then higher else kept

unfoldable pub normalized_rules :
    MappingHost → List AccountMappingRule → Result (List AccountMappingRule)
normalized_rules host [] = ok []
normalized_rules host (rule ∷ rules) = do
  normalized ← normalized_rule host rule
  rest ← normalized_rules host rules
  ok (normalized ∷ rest)

-- `applicable`
unfoldable pub applicable_rules :
    MappingHost → Context → List AccountMappingRule → Result (List AccountMappingRule)
applicable_rules host context [] = ok []
applicable_rules host context (rule ∷ rules) = do
  applies ← rule_applies_to_context host rule context
  rest ← applicable_rules host context rules
  ok (if applies then rule ∷ rest else rest)

-- `min(finalists, key=lambda rule: rule.rule_id)`, from a first rule on
unfoldable pub first_by_id : AccountMappingRule → List AccountMappingRule → AccountMappingRule
first_by_id least [] = least
first_by_id least (r ∷ rs) =
    let lower = first_by_id r rs in
    let kept = first_by_id least rs in if text_lt r.rule_id least.rule_id then lower else kept

-- Equality of the sorted items of two dictionaries, whose keys are distinct.
abbrev pub subfields : Dict String → Dict String → Bool
subfields [] b = true
subfields ((k, v) ∷ a) b = elim (lookup k b) [ none ↦ false | some w ↦ str_eq v w ] && subfields a b

abbrev pub same_fields : Dict String → Dict String → Bool
same_fields a b = subfields a b && subfields b a

-- `_rule_target`, as far as it is compared: two rules post to the same accounts.
unfoldable pub same_target : AccountMappingRule → AccountMappingRule → Bool
same_target a b =
    str_eq a.debit_account_code b.debit_account_code
    && (str_eq a.debit_account_name b.debit_account_name
        && (str_eq a.credit_account_code b.credit_account_code
            && (str_eq a.credit_account_name b.credit_account_name
                && (str_eq a.tax_account_code b.tax_account_code
                    && (same_fields a.aux_dimensions b.aux_dimensions
                        && str_eq a.business_class b.business_class)))))

abbrev pub rule_ids : List AccountMappingRule → List String
rule_ids [] = []
rule_ids (r ∷ rs) = r.rule_id ∷ rule_ids rs

-- The rule among the finalists, which agree on their target or are ambiguous.
unfoldable pub chosen_rule : List AccountMappingRule → Result (Option AccountMappingRule)
chosen_rule [] = ok none
chosen_rule (r ∷ rs) =
    if all (same_target r) rs
    then ok (some (first_by_id r rs))
    else err (mapping_ambiguous (sorted (rule_ids (r ∷ rs))))

-- The rules of the best rank.
unfoldable pub finalists : List AccountMappingRule → List AccountMappingRule
finalists [] = []
finalists (r ∷ rs) =
    let best = best_rank (rule_rank r) rs in select (λ x. rank_eq (rule_rank x) best) (r ∷ rs)

-- The rules of a call: a list, or a stored mapping that is bound to a ledger or not.
pub data RuleStore : Type 0 where
  listed : List AccountMappingRule → RuleStore
  stored_rules : Bool → List AccountMappingRule → RuleStore

unfoldable pub rules_of : Bool → RuleStore → Result (List AccountMappingRule)
rules_of require_bound (listed rules) = raise_if require_bound mapping_unbound >> ok rules
rules_of require_bound (stored_rules bound rules) =
    raise_if (require_bound && not bound) mapping_unbound >> ok rules

-- `match_account_rule`
unfoldable pub match_account_rule :
    MappingHost → RuleStore → Context → Bool → Result (Option AccountMappingRule)
match_account_rule host store context require_bound = do
  rules ← rules_of require_bound store
  normalized ← normalized_rules host rules
  applicable ← applicable_rules host context normalized
  chosen_rule (finalists applicable)
