-- ===== src/Bookkeeping/Mapping/Resolve.antt =====
-- `resolve_account_mapping`: the match of a rule as a `VoucherRuleResolution`.
use invoice_hub.Domain.{VoucherRuleResolution, ambiguous, matched, unmatched}
use invoice_hub.Bookkeeping.Result.{Result, err, mapping_ambiguous, ok, ◌>>=◌}
use invoice_hub.Prelude.{List, Option, String, [], false, if◌then◌else◌, none, some, str_eq, ◌∷◌}
use invoice_hub.Bookkeeping.Mapping.Match.{
  Context, listed, match_account_rule, normalized_rules, rule_ids,
}
use invoice_hub.Bookkeeping.Mapping.Rule.{
  AccountMappingRule, MappingHost, mapping_rule_fingerprint, normalize_match_text, normalized_rule,
}

abbrev pub with_id : String → List AccountMappingRule → Option AccountMappingRule
with_id rule_id [] = none
with_id rule_id (r ∷ rs) =
    let later = with_id rule_id rs in
    elim later [
      | some found ↦ some found
      | none ↦ if str_eq r.rule_id rule_id then some r else none
    ]

-- `[by_id[rule_id] for rule_id in rule_ids if rule_id in by_id]`, where `by_id` keeps the last rule
-- of each id; the ids come sorted, so the sort by id that follows keeps their order.
unfoldable pub candidates_of : List String → List AccountMappingRule → List AccountMappingRule
candidates_of [] rules = []
candidates_of (i ∷ ids) rules =
    let rest = candidates_of ids rules in elim (with_id i rules) [ none ↦ rest | some r ↦ r ∷ rest ]

unfoldable pub fingerprints : MappingHost → List AccountMappingRule → Result (List String)
fingerprints host [] = ok []
fingerprints host (r ∷ rs) = do
  fingerprint ← mapping_rule_fingerprint host r
  rest ← fingerprints host rs
  ok (fingerprint ∷ rest)

-- A resolution, and the rule where one is matched.
abbrev pub Resolution : Type 0
Resolution = VoucherRuleResolution × Option AccountMappingRule

abbrev pub unmatched_line : String → VoucherRuleResolution
unmatched_line source_line_id = record {
  source_line_id = source_line_id;
  outcome = unmatched;
  rule_id = "";
  rule_fingerprint = "";
  candidate_rule_ids = [];
  candidate_rule_fingerprints = [];
}

unfoldable pub ambiguous_line :
    MappingHost → List AccountMappingRule → String → List String → Result Resolution
ambiguous_line host rules source_line_id ids = do
  normalized ← normalized_rules host rules
  let candidates = candidates_of ids normalized
  prints ← fingerprints host candidates
  ok (
    record {
      source_line_id = source_line_id;
      outcome = ambiguous;
      rule_id = "";
      rule_fingerprint = "";
      candidate_rule_ids = rule_ids candidates;
      candidate_rule_fingerprints = prints;
    },
    none,
  )

unfoldable pub matched_line : MappingHost → String → AccountMappingRule → Result Resolution
matched_line host source_line_id rule = do
  normalized ← normalized_rule host rule
  fingerprint ← mapping_rule_fingerprint host normalized
  ok (
    record {
      source_line_id = source_line_id;
      outcome = matched;
      rule_id = normalized.rule_id;
      rule_fingerprint = fingerprint;
      candidate_rule_ids = [];
      candidate_rule_fingerprints = [];
    },
    some normalized,
  )

-- The resolution, by what the match returned or raised.
unfoldable pub resolution_of :
    MappingHost
    → List AccountMappingRule
    → String
    → Result (Option AccountMappingRule)
    → Result Resolution
resolution_of host rules source_line_id (err (mapping_ambiguous ids)) =
    ambiguous_line host rules source_line_id ids
resolution_of host rules source_line_id (err e) = err e
resolution_of host rules source_line_id (ok none) = ok (unmatched_line source_line_id, none)
resolution_of host rules source_line_id (ok (some rule)) = matched_line host source_line_id rule

unfoldable pub resolve_account_mapping :
    MappingHost → List AccountMappingRule → String → Context → Result Resolution
resolve_account_mapping host rules source_line_id context =
    resolution_of host rules (normalize_match_text source_line_id)
      (match_account_rule host (listed rules) context false)
