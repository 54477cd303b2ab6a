-- ===== src/Bookkeeping/Tests/Drafts.antt =====
-- The theorems on the generation of drafts, at three rows of two invoices.
use invoice_hub.Bookkeeping.Vouchers.Rounding.{IsNear, money_text-IsNear}
use invoice_hub.Bookkeeping.Money.{Decimal, decimal_of_text}
use invoice_hub.Bookkeeping.Vouchers.Promised.{
  draft_from_group-AreMatched, draft_from_group-AllSound, draft_from_group-Totals,
  draft_from_group-balance_ok,
}
use invoice_hub.Bookkeeping.Tests.Rules.{rule_for, test_mapping_host}
use invoice_hub.Bookkeeping.Vouchers.Matched.{AreMatched}
use invoice_hub.Prelude.Dict.{lookup}
use invoice_hub.Bookkeeping.Tests.Data.{is_ok, ok_value, test_draft, test_host, value_of}
use invoice_hub.Bookkeeping.Vouchers.Partition.{group_rows-lookup, none_if_empty, rows_of_key}
use invoice_hub.Bookkeeping.Vouchers.Counted.{generate_voucher_drafts-source_count, source_count}
use invoice_hub.Bookkeeping.Vouchers.Group.{generate_voucher_drafts, group_rows, numbered}
use invoice_hub.Bookkeeping.Vouchers.Balanced.{credit_cents, debit_cents}
use invoice_hub.Bookkeeping.Vouchers.Facts.{VoucherHost}
use invoice_hub.Domain.{
  VoucherDraft, auto, forced_manual, ReviewTier, ai_suggested, manual_confirmed,
}
use invoice_hub.Bookkeeping.Decisions.Balance.{Totals}
use invoice_hub.Bookkeeping.Mapping.Rule.{RuleSource}
use invoice_hub.Bookkeeping.Vouchers.Row.{Row, money_text}
use invoice_hub.Bookkeeping.Result.{Result}
use invoice_hub.Bookkeeping.Vouchers.Draft.{DraftHeader, draft_from_group}
use invoice_hub.Bookkeeping.Vouchers.Reviewed.{AllSound}
use invoice_hub.Prelude.{
  All, List, String, [], length, none, refl, sym, true, ℕ, ◌∙◌, ◌∷◌, ◌≡◌, ◌≢◌, Bool, arith, false,
  ◌&&◌, some,
}
use invoice_hub.Bookkeeping.Vouchers.Lines.{AccountPayload, account_names}

abbrev test_voucher_host : VoucherHost
test_voucher_host = record {
  base = test_host;
  mapping = test_mapping_host;
  source_hash = none;
  source_line_sha256 = λ k. k.invoice_no;
  item_sha256 = λ item spec unit. item;
  allocation_sha256 = λ id project. id;
  resolutions_sha256 = λ rs. "resolutions";
  accounts_sha256 = λ accounts. "accounts";
}

abbrev test_header : DraftHeader
test_header = record {
  rules = rule_for "" "seller" "" RuleSource.manual ∷ [];
  account_table = ("1001", "stock") ∷ ("2202", "payable") ∷ ("2221", "tax") ∷ [];
  rules_version = "rules";
  generated_at = "";
  company_id = "company";
  account_table_sha256 = "";
  aux_catalog_sha256 = "";
  ledger_environment = "";
  ledger_identity_sha256 = "";
  ledger_profile_revision = 1;
  ledger_profile_sha256 = "";
  account_required_aux = [];
}

abbrev row_of : String → String → String → String → Row
row_of number pretax tax total =
    ("发票号码", number)
    ∷ ("销售方", "seller")
    ∷ ("开票日期", "2026-01-02")
    ∷ ("金额(除税)", pretax)
    ∷ ("税金", tax)
    ∷ ("价税合计", total)
    ∷ ("税率", "13%")
    ∷ ("项目名称", "item")
    ∷ []

abbrev first_row : Row
first_row = row_of "n1" "1,100.00" "13" "1113.00"

abbrev second_row : Row
second_row = row_of "n2" "5" "0.65" "5.65"

abbrev third_row : Row
third_row = row_of "n1" "7.00" "0" "7.00"

abbrev all_rows : List Row
all_rows = first_row ∷ second_row ∷ third_row ∷ []

abbrev invoice_rows : List (ℕ × Row)
invoice_rows = (1, first_row) ∷ (3, third_row) ∷ []

abbrev test_payload : AccountPayload
test_payload = account_names (("1001", "stock") ∷ ("2202", "payable") ∷ ("2221", "tax") ∷ [])

group_rows-lookup_example :
    lookup "n1" (group_rows test_voucher_host (numbered 1 all_rows) [])
    ≡ none_if_empty (rows_of_key test_voucher_host "n1" (numbered 1 all_rows))
group_rows-lookup_example = group_rows-lookup test_voucher_host (numbered 1 all_rows) "n1"

-- The rows of the first invoice are the first and the third.
rows_of_n1 : rows_of_key test_voucher_host "n1" (numbered 1 all_rows) ≡ invoice_rows
unfolding rows_of_key numbered invoice_hub.Bookkeeping.Vouchers.Group.group_key
    invoice_hub.Bookkeeping.Vouchers.Row.clean invoice_hub.Prelude.Text.strip
    invoice_hub.Bookkeeping.Vouchers.Row.narrow_spaces lookup
rows_of_n1 = refl

abbrev drafts : Result (List VoucherDraft)
drafts = generate_voucher_drafts test_voucher_host test_header test_payload all_rows

drafts_ok : is_ok drafts ≡ true
unfolding generate_voucher_drafts invoice_hub.Bookkeeping.Vouchers.Group.drafts_of group_rows
    numbered invoice_hub.Bookkeeping.Vouchers.Group.add_to_group invoice_hub.Prelude.Dict.insert
    invoice_hub.Bookkeeping.Vouchers.Group.group_key invoice_hub.Bookkeeping.Vouchers.Row.clean
    invoice_hub.Prelude.Text.strip invoice_hub.Bookkeeping.Vouchers.Row.narrow_spaces lookup
    draft_from_group invoice_hub.Bookkeeping.Vouchers.Facts.all_facts
    invoice_hub.Bookkeeping.Vouchers.Facts.row_facts
    invoice_hub.Bookkeeping.Mapping.Resolve.resolve_account_mapping
    invoice_hub.Bookkeeping.Mapping.Resolve.resolution_of
    invoice_hub.Bookkeeping.Mapping.Match.match_account_rule
    invoice_hub.Bookkeeping.Mapping.Match.rules_of
    invoice_hub.Bookkeeping.Mapping.Match.normalized_rules
    invoice_hub.Bookkeeping.Vouchers.Draft.group_facts
    invoice_hub.Bookkeeping.Vouchers.Group.header_of
    invoice_hub.Bookkeeping.Mapping.Rule.normalized_rule
    invoice_hub.Bookkeeping.Mapping.Rule.normalized_iso_date
    invoice_hub.Bookkeeping.Mapping.Rule.normalize_match_text
    invoice_hub.Bookkeeping.Mapping.Rule.collapse
    invoice_hub.Bookkeeping.Mapping.Match.applicable_rules
    invoice_hub.Bookkeeping.Mapping.Match.rule_applies_to_context
    invoice_hub.Bookkeeping.Mapping.Match.applies_on
    invoice_hub.Bookkeeping.Mapping.Match.scope_fits
    invoice_hub.Bookkeeping.Vouchers.Row.first_non_empty
    invoice_hub.Bookkeeping.Vouchers.Draft.column invoice_hub.Bookkeeping.Mapping.Match.chosen_rule
    invoice_hub.Bookkeeping.Mapping.Match.finalists
    invoice_hub.Bookkeeping.Mapping.Match.period_fits invoice_hub.Bookkeeping.Mapping.Match.rank_eq
    invoice_hub.Bookkeeping.Mapping.Match.rule_rank invoice_hub.Bookkeeping.Mapping.Match.best_rank
    invoice_hub.Bookkeeping.Mapping.Match.rule_specificity
    invoice_hub.Bookkeeping.Mapping.Resolve.matched_line
    invoice_hub.Bookkeeping.Mapping.Match.first_by_id
    invoice_hub.Bookkeeping.Mapping.Rule.mapping_rule_fingerprint
    invoice_hub.Bookkeeping.Mapping.Rule.semantic_payload
    invoice_hub.Bookkeeping.Vouchers.Lines.voucher_lines_for_source
    invoice_hub.Bookkeeping.Vouchers.Row.as_decimal
    invoice_hub.Bookkeeping.Money.Read.decimal_of_text
    invoice_hub.Bookkeeping.Vouchers.Facts.source_line_of
    invoice_hub.Bookkeeping.Vouchers.Row.money_text
    invoice_hub.Bookkeeping.Money.Print.Digits.format_f
    invoice_hub.Bookkeeping.Vouchers.Row.quantized
    invoice_hub.Bookkeeping.Vouchers.Facts.row_amounts
    invoice_hub.Bookkeeping.Vouchers.Row.row_money invoice_hub.Bookkeeping.Vouchers.Row.drop_marks
    invoice_hub.Bookkeeping.Vouchers.Row.is_plain_money
    invoice_hub.Bookkeeping.Vouchers.Row.plain_number
    invoice_hub.Bookkeeping.Vouchers.Row.plain_digits
    invoice_hub.Bookkeeping.Vouchers.Row.money_value
    invoice_hub.Bookkeeping.Money.Print.Digits.digit_char
    invoice_hub.Bookkeeping.Vouchers.Draft.side_total
    invoice_hub.Bookkeeping.Vouchers.Draft.all_lines invoice_hub.Bookkeeping.Vouchers.Lines.tax_part
    invoice_hub.Bookkeeping.Mapping.Resolve.fingerprints
    invoice_hub.Bookkeeping.Vouchers.Draft.rules_by_id
    invoice_hub.Bookkeeping.Vouchers.Draft.matched_rules
    invoice_hub.Bookkeeping.Mapping.Rule.account_mapping_rule_id
drafts_ok = refl

generate_voucher_drafts-source_count_example :
    (length (value_of drafts []) ≡ length (group_rows test_voucher_host (numbered 1 all_rows) []))
    × (source_count (value_of drafts []) ≡ 3)
generate_voucher_drafts-source_count_example =
    generate_voucher_drafts-source_count test_voucher_host test_header test_payload all_rows
      (value_of drafts []) (ok_value drafts [] drafts_ok)

abbrev made : Result VoucherDraft
made = draft_from_group test_voucher_host test_header "n1" "n1" invoice_rows

abbrev made_draft : VoucherDraft
made_draft = value_of made test_draft

abbrev is_auto : ReviewTier → Bool
is_auto auto = true
is_auto ai_suggested = false
is_auto forced_manual = false
is_auto manual_confirmed = false

is_auto→eq : (t : ReviewTier) → is_auto t ≡ true → t ≡ auto
is_auto→eq auto h = refl
is_auto→eq ai_suggested h = cc
is_auto→eq forced_manual h = cc
is_auto→eq manual_confirmed h = cc

three_true : (a b c : Bool) → (a && (b && c)) ≡ true → (a ≡ true) × (b ≡ true) × (c ≡ true)
three_true a b c h = (ground arith, ground arith, ground arith)

made_checks : is_ok made && (made_draft.balance_ok && is_auto made_draft.review_tier) ≡ true
unfolding draft_from_group invoice_hub.Bookkeeping.Vouchers.Facts.all_facts
    invoice_hub.Bookkeeping.Vouchers.Facts.row_facts
    invoice_hub.Bookkeeping.Mapping.Resolve.resolve_account_mapping
    invoice_hub.Bookkeeping.Mapping.Resolve.resolution_of
    invoice_hub.Bookkeeping.Mapping.Match.match_account_rule
    invoice_hub.Bookkeeping.Mapping.Match.rules_of
    invoice_hub.Bookkeeping.Mapping.Match.normalized_rules
    invoice_hub.Bookkeeping.Vouchers.Draft.group_facts
    invoice_hub.Bookkeeping.Mapping.Rule.normalized_rule
    invoice_hub.Bookkeeping.Mapping.Rule.normalized_iso_date
    invoice_hub.Bookkeeping.Mapping.Rule.normalize_match_text invoice_hub.Prelude.Text.strip
    invoice_hub.Bookkeeping.Mapping.Rule.collapse
    invoice_hub.Bookkeeping.Mapping.Match.applicable_rules
    invoice_hub.Bookkeeping.Mapping.Match.rule_applies_to_context
    invoice_hub.Bookkeeping.Mapping.Match.applies_on
    invoice_hub.Bookkeeping.Mapping.Match.scope_fits
    invoice_hub.Bookkeeping.Vouchers.Row.first_non_empty
    invoice_hub.Bookkeeping.Vouchers.Draft.column invoice_hub.Bookkeeping.Vouchers.Row.clean
    invoice_hub.Bookkeeping.Vouchers.Row.narrow_spaces lookup
    invoice_hub.Bookkeeping.Mapping.Match.chosen_rule
    invoice_hub.Bookkeeping.Mapping.Match.finalists
    invoice_hub.Bookkeeping.Mapping.Match.period_fits invoice_hub.Bookkeeping.Mapping.Match.rank_eq
    invoice_hub.Bookkeeping.Mapping.Match.rule_rank invoice_hub.Bookkeeping.Mapping.Match.best_rank
    invoice_hub.Bookkeeping.Mapping.Match.rule_specificity
    invoice_hub.Bookkeeping.Mapping.Resolve.matched_line
    invoice_hub.Bookkeeping.Mapping.Match.first_by_id
    invoice_hub.Bookkeeping.Mapping.Rule.mapping_rule_fingerprint
    invoice_hub.Bookkeeping.Mapping.Rule.semantic_payload
    invoice_hub.Bookkeeping.Vouchers.Lines.voucher_lines_for_source
    invoice_hub.Bookkeeping.Vouchers.Row.as_decimal
    invoice_hub.Bookkeeping.Money.Read.decimal_of_text
    invoice_hub.Bookkeeping.Vouchers.Facts.source_line_of
    invoice_hub.Bookkeeping.Vouchers.Row.money_text
    invoice_hub.Bookkeeping.Money.Print.Digits.format_f
    invoice_hub.Bookkeeping.Vouchers.Row.quantized
    invoice_hub.Bookkeeping.Vouchers.Facts.row_amounts
    invoice_hub.Bookkeeping.Vouchers.Row.row_money invoice_hub.Bookkeeping.Vouchers.Row.drop_marks
    invoice_hub.Bookkeeping.Vouchers.Row.is_plain_money
    invoice_hub.Bookkeeping.Vouchers.Row.plain_number
    invoice_hub.Bookkeeping.Vouchers.Row.plain_digits
    invoice_hub.Bookkeeping.Vouchers.Row.money_value
    invoice_hub.Bookkeeping.Money.Print.Digits.digit_char
    invoice_hub.Bookkeeping.Vouchers.Draft.side_total
    invoice_hub.Bookkeeping.Vouchers.Draft.all_lines invoice_hub.Bookkeeping.Vouchers.Lines.tax_part
    invoice_hub.Bookkeeping.Mapping.Resolve.fingerprints
    invoice_hub.Bookkeeping.Vouchers.Draft.rules_by_id
    invoice_hub.Bookkeeping.Vouchers.Draft.matched_rules invoice_hub.Prelude.Dict.insert
    invoice_hub.Bookkeeping.Mapping.Rule.account_mapping_rule_id
    invoice_hub.Bookkeeping.Vouchers.Draft.sealed
    invoice_hub.Bookkeeping.Vouchers.Draft.unsealed_draft
    invoice_hub.Bookkeeping.Money.Number.decimal_eq invoice_hub.Bookkeeping.Money.Number.decimal_add
    invoice_hub.Bookkeeping.Vouchers.Draft.draft_reasons
    invoice_hub.Bookkeeping.Vouchers.Draft.group_reasons
    invoice_hub.Bookkeeping.Vouchers.Draft.clean_set
    invoice_hub.Bookkeeping.Vouchers.Draft.row_reasons
    invoice_hub.Bookkeeping.Vouchers.Facts.rate_reasons
    invoice_hub.Bookkeeping.Vouchers.Facts.tail_reasons
    invoice_hub.Bookkeeping.Vouchers.Row.exceeds_tail invoice_hub.Bookkeeping.Mapping.Match.rank_lt
    invoice_hub.Bookkeeping.Mapping.Match.same_target
    invoice_hub.Bookkeeping.Mapping.Resolve.ambiguous_line
    invoice_hub.Bookkeeping.Mapping.Resolve.candidates_of
    invoice_hub.Bookkeeping.Money.Number.scaled invoice_hub.Bookkeeping.Money.Number.signed
    invoice_hub.Bookkeeping.Money.Print.Digits.drop_digits
    invoice_hub.Bookkeeping.Money.Print.Digits.put_digits
    invoice_hub.Bookkeeping.Money.Print.Digits.put_fraction
    invoice_hub.Bookkeeping.Money.Print.Digits.put_integer
    invoice_hub.Bookkeeping.Money.Print.Digits.put_unsigned
    invoice_hub.Bookkeeping.Money.Read.drop_underscores
    invoice_hub.Bookkeeping.Money.Read.read_exponent
    invoice_hub.Bookkeeping.Money.Read.read_fraction invoice_hub.Bookkeeping.Money.Read.read_integer
    invoice_hub.Bookkeeping.Money.Read.read_power invoice_hub.Bookkeeping.Money.Read.read_signed
    invoice_hub.Bookkeeping.Status.Hash.joined_key invoice_hub.Bookkeeping.Status.Hash.posting_key
    invoice_hub.Bookkeeping.Status.Hash.proposal_revision_hash
    invoice_hub.Bookkeeping.Status.Hash.stable_payload
    invoice_hub.Bookkeeping.Status.Hash.voucher_draft_key
    invoice_hub.Bookkeeping.Vouchers.Draft.aggregate_diff
    invoice_hub.Bookkeeping.Vouchers.Draft.aggregate_reasons
    invoice_hub.Bookkeeping.Vouchers.Draft.decimal_sum
    invoice_hub.Bookkeeping.Vouchers.Draft.hash_of
    invoice_hub.Bookkeeping.Vouchers.Draft.readiness_of
    invoice_hub.Bookkeeping.Vouchers.Draft.some_unmatched
    invoice_hub.Bookkeeping.Vouchers.Draft.source_file_hashes
    invoice_hub.Bookkeeping.Vouchers.Draft.tier_of
    invoice_hub.Bookkeeping.Vouchers.Facts.account_reasons
    invoice_hub.Bookkeeping.Vouchers.Facts.allocation_of
    invoice_hub.Bookkeeping.Vouchers.Facts.conflict_reasons
    invoice_hub.Bookkeeping.Vouchers.Facts.item_name_of
    invoice_hub.Bookkeeping.Vouchers.Facts.joined_ids
    invoice_hub.Bookkeeping.Vouchers.Lines.line_accounts
    invoice_hub.Bookkeeping.Vouchers.Lines.missing_account
    invoice_hub.Bookkeeping.Vouchers.Lines.missing_rule_accounts
    invoice_hub.Bookkeeping.Vouchers.Lines.required_part
    invoice_hub.Bookkeeping.Vouchers.Row.decimal_negate
    invoice_hub.Bookkeeping.Vouchers.Row.difference
    invoice_hub.Bookkeeping.Vouchers.Row.marker_parts
    invoice_hub.Bookkeeping.Vouchers.Row.row_marker invoice_hub.Bookkeeping.Vouchers.Row.row_reason
    invoice_hub.Prelude.Int.◌+ℤ◌ invoice_hub.Prelude.Order.lt_wf invoice_hub.Prelude.Sorting.sorted
    invoice_hub.Prelude.Text.join_words invoice_hub.Prelude.Text.lstrip
    invoice_hub.Prelude.Text.rstrip invoice_hub.Prelude.Text.take_text native.Mathlib.Bridge.IsLe
    native.Mathlib.Decide.dec_le native.Mathlib.Decide.dec_lt
made_checks = refl

all_checks :
    (is_ok made ≡ true) × (made_draft.balance_ok ≡ true) × (is_auto made_draft.review_tier ≡ true)
all_checks =
    three_true (is_ok made) made_draft.balance_ok (is_auto made_draft.review_tier) made_checks

made_ok : is_ok made ≡ true
made_ok = all_checks.0

made_balanced : made_draft.balance_ok ≡ true
made_balanced = all_checks.1

made_auto : made_draft.review_tier ≡ auto
made_auto = is_auto→eq made_draft.review_tier all_checks.2

auto_not_forced : auto ≢ forced_manual
auto_not_forced h = cc

draft_from_group-Totals_example :
    Totals made_draft.lines (debit_cents invoice_rows) (credit_cents invoice_rows)
draft_from_group-Totals_example =
    draft_from_group-Totals test_voucher_host test_header "n1" "n1" invoice_rows made_draft
      (ok_value made test_draft made_ok)

draft_from_group-balance_ok_example :
    (debit_cents invoice_rows ≡ credit_cents invoice_rows) × AllSound invoice_rows
draft_from_group-balance_ok_example =
    draft_from_group-balance_ok test_voucher_host test_header "n1" "n1" invoice_rows made_draft
      (ok_value made test_draft made_ok) made_balanced

draft_from_group-AllSound_example : AllSound invoice_rows
draft_from_group-AllSound_example =
    draft_from_group-AllSound test_voucher_host test_header "n1" "n1" invoice_rows made_draft
      (ok_value made test_draft made_ok) (λ h. auto_not_forced (sym made_auto ∙ h))

draft_from_group-AreMatched_example :
    AreMatched invoice_rows made_draft.source_lines made_draft.rule_resolutions
draft_from_group-AreMatched_example =
    draft_from_group-AreMatched test_voucher_host test_header "n1" "n1" invoice_rows made_draft
      (ok_value made test_draft made_ok) made_auto

abbrev long_number : Decimal
long_number = record { negative = true; coefficient = 12345; places = 3 }

money_text-IsNear_example :
    (q : Decimal) × (decimal_of_text (money_text long_number) ≡ some q) × IsNear long_number q
money_text-IsNear_example = money_text-IsNear long_number
