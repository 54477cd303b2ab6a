-- ===== src/Bookkeeping/Mapping/Protected.antt =====
-- What an append keeps of the rules that a person confirmed.
use invoice_hub.Prelude.Text.{is_empty_text}
use invoice_hub.Bookkeeping.Mapping.Match.{given, normalized_rules, rule_ids}
use invoice_hub.Bookkeeping.Mapping.Append.{
  append_new, append_rule, append_unless, find_rule, id_list, is_manual, is_present, replaced_rules,
  replacement_guards, replacement_of,
}
use invoice_hub.Bookkeeping.Mapping.Found.{
  Any-append, IsProtected, find_rule-id, find_rule_unique, normalized_rules-Any, removed_by,
  select-keeps,
}
use invoice_hub.Prelude.{
  Any, Bool, Bool-cases, List, Option, String, [], ap, arith, elem, false, if◌then◌else◌, inl, inr,
  is_some, none, not, some, str_eq, str_eq→eq, subst, sym, true, ℕ, ◌&&◌, ◌++◌, ◌+◌, ◌∙◌, ◌∷◌, ◌≡◌,
  ◌⊎◌,
}
use invoice_hub.Bookkeeping.Mapping.Store.{
  AccountMappingStore, binding_or, distinct_rules, mapping_guards, mapping_rules_version,
  write_mapping,
}
use invoice_hub.Bookkeeping.Mapping.Rule.{
  AccountMappingRule, Binding, MappingHost, normalize_match_text, normalized_rule,
}
use invoice_hub.Bookkeeping.Result.{
  >>=-eq-ok, ai_replaces, duplicate_scope, manual_protected, ok, ok-injective, raise_if-eq-ok,
  replaced_missing, replacement_required,
}
use invoice_hub.Bookkeeping.Decisions.Allocations.{has_duplicates}

-- What a write leaves: the rules in their normal form, no id twice, the next revision.
pub record IsWritten (host : MappingHost) (rules : List AccountMappingRule)
    (current after : AccountMappingStore) : Type 0 where
  pub normalizes : normalized_rules host rules ≡ ok after.rules
  pub distinct : has_duplicates (rule_ids after.rules) ≡ false
  pub revision : after.revision ≡ current.revision + 1

-- A store that was written holds the rules that were given, normalized and with distinct ids, at the
-- next revision.
pub write_mapping-IsWritten :
    (host : MappingHost) (rules : List AccountMappingRule) (expected : Option ℕ)
    (binding : Option Binding) (current after : AccountMappingStore)
    → write_mapping host rules expected binding current ≡ ok after
    → IsWritten host rules current after
unfolding write_mapping distinct_rules
write_mapping-IsWritten host rules expected binding current after h =
    let (_, _, h₁) = >>=-eq-ok (mapping_guards expected binding current) _ h in
    let (normalized, made, h₂) = >>=-eq-ok (distinct_rules host rules) _ h₁ in
    let (n, normalizes, k₁) = >>=-eq-ok (normalized_rules host rules) _ made in
    let (distinct, k₂) = raise_if-eq-ok (has_duplicates (rule_ids n)) duplicate_scope _ k₁ in
    let (_, _, h₃) =
      >>=-eq-ok (mapping_rules_version host normalized (binding_or binding current.binding)) _ h₂ in
    let written = ok-injective h₃ in
    let same_rules : n ≡ after.rules = ok-injective k₂ ∙ ap (λ s. s.rules) written in
    record {
      normalizes = normalizes ∙ ap ok same_rules;
      distinct = ap (λ rs. has_duplicates (rule_ids rs)) (sym same_rules) ∙ distinct;
      revision = ap (λ s. s.revision) (sym written);
    }

second_manual : (a b : Bool) → a ≡ true → a && not b ≡ false → b ≡ true
second_manual a b h k = ground arith

-- The guards on a rule that stands in the new one's place.
replacement_guards-existing :
    (stored r : AccountMappingRule) (replacement : Option AccountMappingRule) (i : String)
    {u : Unit {0}}
    → replacement_guards stored (some r) replacement i ≡ ok u
    → is_manual r.source ≡ true
    → (i ≡ r.rule_id) × (is_manual stored.source ≡ true)
unfolding replacement_guards
replacement_guards-existing stored r replacement i h m =
    let (protected, h₁) =
      raise_if-eq-ok (is_manual r.source && not (is_manual stored.source)) manual_protected _ h in
    let (named, _) =
      raise_if-eq-ok (is_manual stored.source && not (str_eq i r.rule_id)) replacement_required _
        h₁ in
    let by_person = second_manual _ _ m protected in
    (str_eq→eq i r.rule_id (second_manual _ _ by_person named), by_person)

none_some {ℓ κ} : {A : Type ℓ} {B : Type κ} {a : A} → none ≡ some a → B
none_some h = cc

replacement_of-id :
    (i : String) (rules : List AccountMappingRule) (r : AccountMappingRule)
    → replacement_of i rules ≡ some r
    → (not (is_empty_text i) ≡ true) × (r.rule_id ≡ i)
replacement_of-id i rules r h = elim (Bool-cases (is_empty_text i)) [
  | inl e ↦ none_some (sym (ap (λ t. if t then none else find_rule i rules) e) ∙ h)
  | inr e ↦ (
    ap not e,
    find_rule-id i rules r (sym (ap (λ t. if t then none else find_rule i rules) e) ∙ h),
  )
]

module _ (host : MappingHost) (stored x : AccountMappingRule) (replaces : String)
    (binding : Option Binding) (current after : AccountMappingStore) where
  append_new-IsProtected :
      {r : AccountMappingRule}
      → append_new host stored
          (find_rule stored.rule_id current.rules)
          (replacement_of (normalize_match_text replaces) current.rules)
          (normalize_match_text replaces)
          binding
          current
        ≡ ok (after, r)
      → not (is_empty_text (normalize_match_text replaces)) && not (is_manual stored.source) ≡ false
      → has_duplicates (rule_ids current.rules) ≡ false
      → Any (λ y. y ≡ x) current.rules
      → is_manual x.source ≡ true
      → IsProtected host replaces x after stored
  unfolding append_new replaced_rules
  append_new-IsProtected h guarded distinct there m =
      let i = normalize_match_text replaces in
      let existing = find_rule stored.rule_id current.rules in
      let replacement = replacement_of i current.rules in
      let removed = id_list existing ++ id_list replacement in
      let (_, guards, h₁) = >>=-eq-ok (replacement_guards stored existing replacement i) _ h in
      let (written, wrote, h₂) =
        >>=-eq-ok
          (write_mapping host (replaced_rules stored existing replacement current.rules)
            (some current.revision) (binding_or current.binding binding) current)
          _ h₁ in
      let w = write_mapping-IsWritten host _ (some current.revision) _ current written wrote in
      let same_store : written ≡ after = ap (λ p. p.0) (ok-injective h₂) in
      subst (λ s. IsProtected host replaces x s stored) same_store
        (elim (Bool-cases (elem x.rule_id removed)) [
          | inl t ↦ elim (removed_by x.rule_id existing replacement t) [
            | inl (r, found, same_id) ↦
                let same_rule =
                  find_rule_unique stored.rule_id current.rules x r distinct there
                    (same_id ∙ find_rule-id stored.rule_id current.rules r found) found in
                let (named, by_person) =
                  replacement_guards-existing stored r replacement i
                    (subst (λ e. replacement_guards stored e replacement i ≡ ok _) found guards)
                    (ap (λ q. is_manual q.source) (sym same_rule) ∙ m) in
                inr (same_id ∙ sym named, by_person)
            | inr (r, found, same_id) ↦
                let (given, own_id) = replacement_of-id i current.rules r found in
                inr (same_id ∙ own_id, second_manual _ _ given guarded)
          ]
          | inr f ↦ inl (
              normalized_rules-Any host _ written.rules x w.normalizes (
                Any-append (stored ∷ []) (
                  select-keeps (λ r. not (elem r.rule_id removed)) current.rules x there
                    (ap not f))))
        ])

append_new-result :
    (host : MappingHost) (made : AccountMappingRule) (replaces : String) (binding : Option Binding)
    (current after : AccountMappingStore) (stored : AccountMappingRule)
    → append_new host made
        (find_rule made.rule_id current.rules)
        (replacement_of (normalize_match_text replaces) current.rules)
        (normalize_match_text replaces)
        binding
        current
      ≡ ok (after, stored)
    → made ≡ stored
unfolding append_new
append_new-result host made replaces binding current after stored h =
    let i = normalize_match_text replaces in
    let existing = find_rule made.rule_id current.rules in
    let replacement = replacement_of i current.rules in
    let (_, _, h₁) = >>=-eq-ok (replacement_guards made existing replacement i) _ h in
    let (_, _, h₂) =
      >>=-eq-ok
        (write_mapping host (replaced_rules made existing replacement current.rules)
          (some current.revision) (binding_or current.binding binding) current)
        _ h₁ in
    ap (λ p. p.1) (ok-injective h₂)

append_unless-IsProtected :
    (host : MappingHost) (present : Bool) (made x : AccountMappingRule) (replaces : String)
    (binding : Option Binding) (current after : AccountMappingStore) (stored : AccountMappingRule)
    → append_unless host present made
        (find_rule made.rule_id current.rules)
        (replacement_of (normalize_match_text replaces) current.rules)
        (normalize_match_text replaces)
        binding
        current
      ≡ ok (after, stored)
    → not (is_empty_text (normalize_match_text replaces)) && not (is_manual made.source) ≡ false
    → has_duplicates (rule_ids current.rules) ≡ false
    → Any (λ y. y ≡ x) current.rules
    → is_manual x.source ≡ true
    → (after ≡ current) ⊎ IsProtected host replaces x after stored
unfolding append_unless
append_unless-IsProtected host true made x replaces binding current after stored h g d a m =
    inl (ap (λ p. p.0) (sym (ok-injective h)))
append_unless-IsProtected host false made x replaces binding current after stored h g d a m = inr (
    subst (IsProtected host replaces x after)
      (append_new-result host made replaces binding current after stored h)
      (append_new-IsProtected host made x replaces binding current after h g d a m))

-- What an append leaves of a rule that a person confirmed: the rule stands in the new store, in its
-- normalized form, or the caller names it for replacement by a rule that a person confirmed. The
-- rules of the old store have distinct ids, as those of every store that is loaded.
pub append_rule-IsProtected :
    (host : MappingHost) (rule : AccountMappingRule) (expected : Option ℕ) (replaces : String)
    (binding : Option Binding) (current after : AccountMappingStore) (stored x : AccountMappingRule)
    → append_rule host rule expected replaces binding current ≡ ok (after, stored)
    → has_duplicates (rule_ids current.rules) ≡ false
    → Any (λ y. y ≡ x) current.rules
    → is_manual x.source ≡ true
    → (after ≡ current) ⊎ IsProtected host replaces x after stored
unfolding append_rule
append_rule-IsProtected host rule expected replaces binding current after stored x h distinct there
      m =
    let i = normalize_match_text replaces in
    let (_, _, h₁) = >>=-eq-ok (mapping_guards expected binding current) _ h in
    let (made, normalizes, h₂) = >>=-eq-ok (normalized_rule host rule) _ h₁ in
    let existing = find_rule made.rule_id current.rules in
    let replacement = replacement_of i current.rules in
    let (_, h₃) =
      raise_if-eq-ok (not (is_empty_text i) && not (is_some replacement)) replaced_missing _ h₂ in
    let (guarded, h₄) =
      raise_if-eq-ok (not (is_empty_text i) && not (is_manual made.source)) ai_replaces _ h₃ in
    append_unless-IsProtected host (is_present made existing replacement) made x replaces binding
      current after stored h₄ guarded distinct there m
