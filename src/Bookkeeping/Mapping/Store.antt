-- ===== src/Bookkeeping/Mapping/Store.antt =====
-- `AccountMappingStore`, `write_mapping` and `append_rule`. A call runs under the write lock of the
-- directory: it is one step on the content of the file, as `load_mapping` reads it.
use invoice_hub.Bookkeeping.Mapping.Match.{normalized_rules, rule_ids}
use invoice_hub.Bookkeeping.Result.{
  Result, bound_elsewhere, duplicate_scope, ok, raise_if, revision_conflict, rules_unbound, ◌>>=◌,
  ◌>>◌,
}
use invoice_hub.Prelude.Dict.{Dict}
use invoice_hub.Prelude.{
  Bool, List, Option, String, [], false, if◌then◌else◌, is_empty, is_some, none, not, some, str_eq,
  text_lt, ℕ, ◌&&◌, ◌+◌, ◌==◌, ◌∷◌,
}
use invoice_hub.Bookkeeping.Mapping.Rule.{
  AccountMappingRule, Binding, MappingHost, semantic_payload,
}
use invoice_hub.Bookkeeping.Decisions.Allocations.{has_duplicates}

-- `migration_receipts` hold what a migration recorded, by its key.
pub record AccountMappingStore : Type 0 where
  pub version : ℕ
  pub revision : ℕ
  pub updated_at : String
  pub rules_version : String
  pub rules : List AccountMappingRule
  pub binding : Option Binding
  pub migration_receipts : Dict String

abbrev pub mapping_version : ℕ
mapping_version = 2

-- `_normalized_rules`
unfoldable pub distinct_rules :
    MappingHost → List AccountMappingRule → Result (List AccountMappingRule)
distinct_rules host rules = do
  normalized ← normalized_rules host rules
  raise_if (has_duplicates (rule_ids normalized)) duplicate_scope
  ok normalized

-- `sorted(rules, key=lambda item: item.rule_id)`
abbrev pub put_by_id : AccountMappingRule → List AccountMappingRule → List AccountMappingRule
put_by_id x [] = x ∷ []
put_by_id x (y ∷ ys) =
    let later = y ∷ put_by_id x ys in if text_lt y.rule_id x.rule_id then later else x ∷ y ∷ ys

unfoldable pub sorted_by_id : List AccountMappingRule → List AccountMappingRule
sorted_by_id [] = []
sorted_by_id (x ∷ xs) = put_by_id x (sorted_by_id xs)

unfoldable pub semantic_payloads :
    MappingHost → List AccountMappingRule → Result (List AccountMappingRule)
semantic_payloads host [] = ok []
semantic_payloads host (r ∷ rs) = do
  payload ← semantic_payload host r
  rest ← semantic_payloads host rs
  ok (payload ∷ rest)

unfoldable pub mapping_rules_version :
    MappingHost → List AccountMappingRule → Option Binding → Result String
mapping_rules_version host rules binding = do
  normalized ← distinct_rules host rules
  payloads ← semantic_payloads host (sorted_by_id normalized)
  ok (host.rules_sha256 payloads binding)

unfoldable pub binding_eq : Binding → Binding → Bool
binding_eq a b =
    str_eq a.company_id b.company_id
    && (str_eq a.ledger_environment b.ledger_environment
        && (str_eq a.ledger_identity_sha256 b.ledger_identity_sha256
            && (str_eq a.ledger_profile_sha256 b.ledger_profile_sha256
                && (str_eq a.account_table_sha256 b.account_table_sha256
                    && str_eq a.aux_catalog_sha256 b.aux_catalog_sha256))))

-- The store and the call name a binding each, and they differ.
abbrev pub binds_elsewhere : Option Binding → Option Binding → Bool
binds_elsewhere none b = false
binds_elsewhere (some a) none = false
binds_elsewhere (some a) (some b) = not (binding_eq a b)

-- `expected_revision is not None and current.revision != expected_revision`
abbrev pub expected_revision : Option ℕ → AccountMappingStore → Result (Unit {0})
expected_revision none current = ok tt
expected_revision (some n) current =
    raise_if (not (current.revision == n)) (revision_conflict n current.revision)

-- The guards that `write_mapping` and `append_rule` share.
unfoldable pub mapping_guards : Option ℕ → Option Binding → AccountMappingStore → Result (Unit {0})
mapping_guards expected binding current = do
  expected_revision expected current
  raise_if (binds_elsewhere current.binding binding) bound_elsewhere
  raise_if (not (is_some current.binding) && not (is_empty current.rules) && is_some binding)
      rules_unbound

-- `current.binding if binding is None else binding`
abbrev pub binding_or : Option Binding → Option Binding → Option Binding
binding_or none current = current
binding_or (some b) current = some b

unfoldable pub write_mapping :
    MappingHost
    → List AccountMappingRule
    → Option ℕ
    → Option Binding
    → AccountMappingStore
    → Result AccountMappingStore
write_mapping host rules expected binding current = do
  mapping_guards expected binding current
  normalized ← distinct_rules host rules
  let resolved = binding_or binding current.binding
  rules_version ← mapping_rules_version host normalized resolved
  ok (record {
    version = mapping_version;
    revision = current.revision + 1;
    updated_at = host.now;
    rules_version = rules_version;
    rules = normalized;
    binding = resolved;
    migration_receipts = current.migration_receipts;
  })
