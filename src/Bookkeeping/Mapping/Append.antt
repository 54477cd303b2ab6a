-- ===== src/Bookkeeping/Mapping/Append.antt =====
-- `append_rule`: a rule joins the store, or takes the place of others.
use invoice_hub.Bookkeeping.Mapping.Match.{same_target}
use invoice_hub.Prelude.Text.{is_empty_text}
use invoice_hub.Prelude.Int.{eqb_ℤ}
use invoice_hub.Bookkeeping.Result.{
  Result, ai_replaces, manual_protected, ok, raise_if, replaced_missing, replacement_required,
  scope_taken, ◌>>=◌, ◌>>◌,
}
use invoice_hub.Prelude.{
  Bool, List, Option, String, [], elem, false, if◌then◌else◌, is_some, none, not, select, some,
  str_eq, true, ℕ, ◌&&◌, ◌++◌, ◌∷◌,
}
use invoice_hub.Bookkeeping.Mapping.Store.{
  AccountMappingStore, binding_or, mapping_guards, write_mapping,
}
use invoice_hub.Bookkeeping.Mapping.Rule.{
  AccountMappingRule, Activation, Binding, MappingHost, RuleSource, active, ai_confirmed, disabled,
  manual, normalize_match_text, normalized_rule, pending_reconfirmation,
}

abbrev pub source_eq : RuleSource → RuleSource → Bool
source_eq manual manual = true
source_eq ai_confirmed ai_confirmed = true
source_eq _ _ = false

abbrev pub activation_eq : Activation → Activation → Bool
activation_eq pending_reconfirmation pending_reconfirmation = true
activation_eq active active = true
activation_eq disabled disabled = true
activation_eq _ _ = false

abbrev pub texts_eq : List String → List String → Bool
texts_eq [] [] = true
texts_eq (x ∷ xs) (y ∷ ys) = str_eq x y && texts_eq xs ys
texts_eq _ _ = false

-- `_rule_signature(a) == _rule_signature(b)`
unfoldable pub same_signature : AccountMappingRule → AccountMappingRule → Bool
same_signature a b =
    str_eq a.match_seller b.match_seller
    && str_eq a.match_source_type b.match_source_type
    && str_eq a.match_item b.match_item
    && str_eq a.match_internal_project b.match_internal_project
    && str_eq a.effective_from b.effective_from
    && str_eq a.effective_to b.effective_to
    && eqb_ℤ a.priority b.priority
    && same_target a b
    && activation_eq a.activation_state b.activation_state
    && texts_eq a.legacy_rule_ids b.legacy_rule_ids
    && source_eq a.source b.source

-- `next((item for item in rules if item.rule_id == rule_id), None)`
unfoldable pub find_rule : String → List AccountMappingRule → Option AccountMappingRule
find_rule rule_id [] = none
find_rule rule_id (r ∷ rs) =
    let later = find_rule rule_id rs in if str_eq r.rule_id rule_id then some r else later

abbrev pub is_manual : RuleSource → Bool
is_manual manual = true
is_manual ai_confirmed = false

-- `x is not None and test(x)`
abbrev pub holds_of {ℓ} : {A : Type ℓ} → Option A → (A → Bool) → Bool
holds_of none test = false
holds_of (some a) test = test a

-- The guards of `append_rule` on what it replaces.
unfoldable pub replacement_guards :
    AccountMappingRule
    → Option AccountMappingRule
    → Option AccountMappingRule
    → String
    → Result (Unit {0})
replacement_guards stored existing replacement replacement_id = do
  raise_if (holds_of existing (λ x. is_manual x.source && not (is_manual stored.source)))
      manual_protected
  raise_if
      (holds_of existing (λ x. is_manual stored.source && not (str_eq replacement_id x.rule_id)))
      replacement_required
  raise_if (holds_of replacement (λ x. is_manual x.source && not (is_manual stored.source)))
      manual_protected
  raise_if (holds_of replacement (λ x. holds_of existing (λ y. not (str_eq x.rule_id y.rule_id))))
      scope_taken

-- `removed_ids`
abbrev pub id_list : Option AccountMappingRule → List String
id_list none = []
id_list (some r) = r.rule_id ∷ []

-- The rule is there already, and nothing else is to be replaced.
unfoldable pub is_present :
    AccountMappingRule → Option AccountMappingRule → Option AccountMappingRule → Bool
is_present stored existing replacement = holds_of existing (λ x.
    same_signature x stored && not (holds_of replacement (λ y. not (str_eq y.rule_id x.rule_id))))

-- The rules with the new one in place of those that it replaces.
unfoldable pub replaced_rules :
    AccountMappingRule
    → Option AccountMappingRule
    → Option AccountMappingRule
    → List AccountMappingRule
    → List AccountMappingRule
replaced_rules stored existing replacement rules =
    select (λ r. not (elem r.rule_id (id_list existing ++ id_list replacement))) rules
    ++ stored ∷ []

-- The write of `append_rule`, where the rule is not present already.
unfoldable pub append_new :
    MappingHost
    → AccountMappingRule
    → Option AccountMappingRule
    → Option AccountMappingRule
    → String
    → Option Binding
    → AccountMappingStore
    → Result (AccountMappingStore × AccountMappingRule)
append_new host stored existing replacement replacement_id binding current = do
  replacement_guards stored existing replacement replacement_id
  after ←
      write_mapping host (replaced_rules stored existing replacement current.rules)
        (some current.revision) (binding_or current.binding binding) current
  ok (after, stored)

-- `replacement`
abbrev pub replacement_of : String → List AccountMappingRule → Option AccountMappingRule
replacement_of replacement_id rules =
    if is_empty_text replacement_id then none else find_rule replacement_id rules

abbrev pub kept_rule : AccountMappingRule → Option AccountMappingRule → AccountMappingRule
kept_rule stored none = stored
kept_rule stored (some existing) = existing

-- The rest of `append_rule`, by whether the rule is present.
unfoldable pub append_unless :
    MappingHost
    → Bool
    → AccountMappingRule
    → Option AccountMappingRule
    → Option AccountMappingRule
    → String
    → Option Binding
    → AccountMappingStore
    → Result (AccountMappingStore × AccountMappingRule)
append_unless host true stored existing replacement replacement_id binding current =
    ok (current, kept_rule stored existing)
append_unless host false stored existing replacement replacement_id binding current =
    append_new host stored existing replacement replacement_id binding current

-- `append_rule`: `replaces_rule_id` is empty where none is given.
unfoldable pub append_rule :
    MappingHost
    → AccountMappingRule
    → Option ℕ
    → String
    → Option Binding
    → AccountMappingStore
    → Result (AccountMappingStore × AccountMappingRule)
append_rule host rule expected replaces_rule_id binding current = do
  mapping_guards expected binding current
  stored ← normalized_rule host rule
  let existing = find_rule stored.rule_id current.rules
  let replacement_id = normalize_match_text replaces_rule_id
  let replacement = replacement_of replacement_id current.rules
  raise_if (not (is_empty_text replacement_id) && not (is_some replacement)) replaced_missing
  raise_if (not (is_empty_text replacement_id) && not (is_manual stored.source)) ai_replaces
  append_unless host (is_present stored existing replacement) stored existing replacement
      replacement_id binding current
