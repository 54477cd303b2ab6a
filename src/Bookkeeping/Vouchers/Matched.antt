-- ===== src/Bookkeeping/Vouchers/Matched.antt =====
-- The rows of a group, each with its source line and the match of that.
use invoice_hub.Bookkeeping.Mapping.Match.{normalized_rules}
use invoice_hub.Bookkeeping.Mapping.Rule.{
  AccountMappingRule, MappingHost, mapping_rule_fingerprint, normalized_rule,
}
use invoice_hub.Bookkeeping.Mapping.Resolve.{
  fingerprints, resolve_account_mapping, ambiguous_line, matched_line, resolution_of, Resolution,
  candidates_of,
}
use invoice_hub.Domain.{VoucherSourceLine, matched, VoucherRuleResolution}
use invoice_hub.Bookkeeping.Vouchers.Row.{Row}
use invoice_hub.Bookkeeping.Vouchers.Lines.{voucher_lines_for_source}
use invoice_hub.Bookkeeping.Vouchers.Facts.{
  GroupFacts, RowFacts, VoucherHost, all_facts, row_facts, source_line_of,
}
use invoice_hub.Bookkeeping.Vouchers.Draft.{some_unmatched}
use invoice_hub.Prelude.{
  Bool, List, String, [], ap, arith, false, inl, inr, refl, subst, sym, true, ℕ, ◌∙◌, ◌∷◌, ◌≡◌,
  Option, is_some, map, none, not, some, true_false, ◌||◌, ◌⊎◌,
}
use invoice_hub.Bookkeeping.Result.{>>=-eq-ok, ok, ok-injective, Result, err, mapping_ambiguous}
use invoice_hub.Bookkeeping.Mapping.Rule.{normalize_match_text}

-- A resolution that comes with a rule is a match.
resolution_of-matched :
    (host : MappingHost) (rules : List AccountMappingRule) (id : String)
    (found : Result (Option AccountMappingRule)) (q : Resolution)
    → resolution_of host rules id found ≡ ok q
    → (is_some q.1 ≡ false) ⊎ (q.0.outcome ≡ matched)
unfolding resolution_of ambiguous_line matched_line
resolution_of-matched host rules id (err (mapping_ambiguous ids)) q h =
    let (normalized, _, h₁) = >>=-eq-ok (normalized_rules host rules) _ h in
    let (_, _, h₂) = >>=-eq-ok (fingerprints host (candidates_of ids normalized)) _ h₁ in
    inl (ap (λ p. is_some p.1) (sym (ok-injective h₂)))
resolution_of-matched host rules id (err e) q h = cc
resolution_of-matched host rules id (ok none) q h =
    inl (ap (λ p. is_some p.1) (sym (ok-injective h)))
resolution_of-matched host rules id (ok (some rule)) q h =
    let (normalized, _, h₁) = >>=-eq-ok (normalized_rule host rule) _ h in
    let (_, _, h₂) = >>=-eq-ok (mapping_rule_fingerprint host normalized) _ h₁ in
    inr (ap (λ p. p.0.outcome) (sym (ok-injective h₂)))

row_facts-matched :
    (host : VoucherHost) (group : GroupFacts) (index : ℕ) (row : Row) (f : RowFacts)
    → row_facts host group index row ≡ ok f
    → (is_some f.rule ≡ false) ⊎ (f.resolution.outcome ≡ matched)
unfolding row_facts resolve_account_mapping
row_facts-matched host group index row f h =
    let (q, hq, h₁) = >>=-eq-ok (resolve_account_mapping host.mapping group.rules _ _) _ h in
    let (_, _, h₂) = >>=-eq-ok (voucher_lines_for_source host.base _ _ _ _) _ h₁ in
    subst (λ g. (is_some g.rule ≡ false) ⊎ (g.resolution.outcome ≡ matched)) (ok-injective h₂)
      (resolution_of-matched host.mapping group.rules _ _ q hq)

resolution_of-source_line_id :
    (host : MappingHost) (rules : List AccountMappingRule) (id : String)
    (found : Result (Option AccountMappingRule)) (q : Resolution)
    → resolution_of host rules id found ≡ ok q
    → q.0.source_line_id ≡ id
unfolding resolution_of ambiguous_line matched_line
resolution_of-source_line_id host rules id (err (mapping_ambiguous ids)) q h =
    let (normalized, _, h₁) = >>=-eq-ok (normalized_rules host rules) _ h in
    let (_, _, h₂) = >>=-eq-ok (fingerprints host (candidates_of ids normalized)) _ h₁ in
    ap (λ p. p.0.source_line_id) (sym (ok-injective h₂))
resolution_of-source_line_id host rules id (err e) q h = cc
resolution_of-source_line_id host rules id (ok none) q h =
    ap (λ p. p.0.source_line_id) (sym (ok-injective h))
resolution_of-source_line_id host rules id (ok (some rule)) q h =
    let (normalized, _, h₁) = >>=-eq-ok (normalized_rule host rule) _ h in
    let (_, _, h₂) = >>=-eq-ok (mapping_rule_fingerprint host normalized) _ h₁ in
    ap (λ p. p.0.source_line_id) (sym (ok-injective h₂))

-- The source line is that of the row with this number, and the resolution names the source line.
abbrev pub IsOfRow : ℕ → VoucherSourceLine → VoucherRuleResolution → Type 0
IsOfRow index source r =
    (source.source_row_no ≡ index) × (r.source_line_id ≡ normalize_match_text source.source_line_id)

row_facts-IsOfRow :
    (host : VoucherHost) (group : GroupFacts) (index : ℕ) (row : Row) (f : RowFacts)
    → row_facts host group index row ≡ ok f
    → IsOfRow index f.source_line f.resolution
unfolding row_facts resolve_account_mapping source_line_of
row_facts-IsOfRow host group index row f h =
    let (q, hq, h₁) = >>=-eq-ok (resolve_account_mapping host.mapping group.rules _ _) _ h in
    let (_, _, h₂) = >>=-eq-ok (voucher_lines_for_source host.base _ _ _ _) _ h₁ in
    subst (λ g. IsOfRow index g.source_line g.resolution) (ok-injective h₂)
      (refl, resolution_of-source_line_id host.mapping group.rules _ _ q hq)

-- Each row has its source line and its resolution, in order, and that resolution is a match.
abbrev pub AreMatched :
    List (ℕ × Row) → List VoucherSourceLine → List VoucherRuleResolution → Type 0
AreMatched [] [] [] = Unit
AreMatched ((index, row) ∷ rows) (source ∷ sources) (r ∷ resolutions) =
    (IsOfRow index source r × (r.outcome ≡ matched)) × AreMatched rows sources resolutions
AreMatched _ _ _ = ⊥

no_option :
    (o : Option AccountMappingRule) (b : Bool)
    → not (is_some o) || b ≡ false
    → (is_some o ≡ true) × (b ≡ false)
no_option o b h = (ground arith, ground arith)

pub all_facts-AreMatched :
    (host : VoucherHost) (group : GroupFacts) (rows : List (ℕ × Row)) (fs : List RowFacts)
    → all_facts host group rows ≡ ok fs
    → some_unmatched fs ≡ false
    → AreMatched rows (map (λ f. f.source_line) fs) (map (λ f. f.resolution) fs)
unfolding all_facts some_unmatched
all_facts-AreMatched host group [] fs h u =
    subst (λ gs. AreMatched [] (map (λ f. f.source_line) gs) (map (λ f. f.resolution) gs))
      (ok-injective h) tt
all_facts-AreMatched host group ((index, row) ∷ rows) fs h u =
    let (f, hf, h₁) = >>=-eq-ok (row_facts host group index row) _ h in
    let (rest, hr, h₂) = >>=-eq-ok (all_facts host group rows) _ h₁ in
    let (s, us) =
      no_option f.rule (some_unmatched rest) (ap some_unmatched (ok-injective h₂) ∙ u) in
    subst
      (λ gs.
        AreMatched ((index, row) ∷ rows) (map (λ f. f.source_line) gs) (map (λ f. f.resolution) gs))
      (ok-injective h₂)
      (
        (
          row_facts-IsOfRow host group index row f hf,
          elim (row_facts-matched host group index row f hf) [
            | inl e ↦ true_false (sym s ∙ e)
            | inr e ↦ e
          ],
        ),
        all_facts-AreMatched host group rows rest hr us,
      )
