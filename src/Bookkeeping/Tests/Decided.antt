-- ===== src/Bookkeeping/Tests/Decided.antt =====
-- The theorems on decisions and amounts, at concrete vouchers.
use invoice_hub.Bookkeeping.Tests.Data.{
  is_ok, item_in, ok_value, store_in, test_allocation, test_host, test_source_line, value_of,
}
use invoice_hub.Bookkeeping.Money.{decimal_of_text, decimal_of_text-format_f, format_f}
use invoice_hub.Bookkeeping.Decisions.Apply.{decide}
use invoice_hub.Bookkeeping.Status.{VoucherStatusStore}
use invoice_hub.Domain.{
  VoucherDecisionPatch, VoucherProjectAllocation, VoucherStatusItem, deductible, draft, prepared,
}
use invoice_hub.Bookkeeping.Result.{Result}
use invoice_hub.Prelude.{List, [], refl, some, true, ◌∷◌, ◌≡◌}
use invoice_hub.Bookkeeping.Decisions.{LedgerCatalog, apply_voucher_decision, validated_allocations}
use invoice_hub.Bookkeeping.Decisions.Saved.{IsDecided, apply_voucher_decision-IsDecided}
use invoice_hub.Bookkeeping.Decisions.Validated.{AllCovered, validated_allocations-AllCovered}

abbrev test_patch : VoucherDecisionPatch
test_patch = record {
  voucher_key = "v1";
  expected_store_revision = 5;
  expected_proposal_revision_hash = "hash";
  command_id = "c1";
  decided_by = "reviewer";
  business_class = "material";
  payment_state = "unpaid";
  payment_evidence_refs = [];
  tax_treatment = deductible;
  tax_evidence_refs = [];
  receiving_state = "received";
  receiving_evidence_refs = [];
  project_allocations = test_allocation ∷ [];
  lines = [];
}

abbrev test_catalog : LedgerCatalog
test_catalog = record {
  accounts_by_code =
      (
        "1001",
        record {
          code = "1001";
          name = "account";
          enabled = true;
          is_leaf = true;
          required_aux_dimensions = [];
        },
      )
      ∷ [];
  auxiliary_by_value_id = [];
}

abbrev allocated : Result (List VoucherProjectAllocation)
allocated = validated_allocations (test_source_line ∷ []) (test_allocation ∷ [])

allocated_ok : is_ok allocated ≡ true
unfolding validated_allocations invoice_hub.Bookkeeping.Decisions.Allocations.has_duplicates
    invoice_hub.Bookkeeping.Decisions.Allocations.check_allocations
    invoice_hub.Bookkeeping.Decisions.Allocations.check_allocation invoice_hub.Prelude.Text.strip
    invoice_hub.Bookkeeping.Decisions.Allocations.amount invoice_hub.Bookkeeping.Money.money
    invoice_hub.Bookkeeping.Money.cents invoice_hub.Prelude.Int.◌+ℤ◌
    invoice_hub.Bookkeeping.Decisions.Allocations.check_sources
    invoice_hub.Bookkeeping.Decisions.Allocations.check_source
    invoice_hub.Bookkeeping.Decisions.Allocations.sum_amounts
allocated_ok = refl

validated_allocations-AllCovered_example :
    AllCovered (value_of allocated []) (test_source_line ∷ [])
validated_allocations-AllCovered_example =
    validated_allocations-AllCovered (test_source_line ∷ []) (test_allocation ∷ [])
      (value_of allocated []) (ok_value allocated [] allocated_ok)

abbrev decided : Result (VoucherStatusStore × VoucherStatusItem)
decided = apply_voucher_decision test_host test_patch test_catalog (store_in draft prepared)

abbrev decided_value : VoucherStatusStore × VoucherStatusItem
decided_value = value_of decided (store_in draft prepared, item_in draft)

decided_ok : is_ok decided ≡ true
unfolding apply_voucher_decision decide invoice_hub.Prelude.Text.strip
    invoice_hub.Bookkeeping.Status.mutate_voucher_status
    invoice_hub.Bookkeeping.Decisions.Apply.decidable_item invoice_hub.Prelude.Dict.lookup
    invoice_hub.Bookkeeping.Decisions.Apply.is_editable
    invoice_hub.Bookkeeping.Status.proposal_revision_hash
    invoice_hub.Bookkeeping.Decisions.Apply.decide_snapshot validated_allocations
    invoice_hub.Bookkeeping.Decisions.Allocations.has_duplicates
    invoice_hub.Bookkeeping.Decisions.Allocations.check_allocations
    invoice_hub.Bookkeeping.Decisions.Allocations.check_allocation
    invoice_hub.Bookkeeping.Decisions.Allocations.amount invoice_hub.Bookkeeping.Money.money
    invoice_hub.Bookkeeping.Money.cents invoice_hub.Prelude.Int.◌+ℤ◌
    invoice_hub.Bookkeeping.Decisions.Allocations.check_sources
    invoice_hub.Bookkeeping.Decisions.Allocations.check_source
    invoice_hub.Bookkeeping.Decisions.Allocations.in_source_order
    invoice_hub.Bookkeeping.Decisions.Allocations.sum_amounts
    invoice_hub.Bookkeeping.Decisions.Apply.decided_item
    invoice_hub.Bookkeeping.Decisions.Apply.decided_snapshot
    invoice_hub.Bookkeeping.Decisions.Apply.insert_sorted
    invoice_hub.Bookkeeping.Decisions.Apply.line_templates
    invoice_hub.Bookkeeping.Decisions.Apply.materialized_decision_templates
    invoice_hub.Bookkeeping.Decisions.Apply.retained_decisions
    invoice_hub.Bookkeeping.Decisions.Apply.retained_role
    invoice_hub.Bookkeeping.Decisions.Apply.revised_snapshot
    invoice_hub.Bookkeeping.Decisions.Apply.sort_keys
    invoice_hub.Bookkeeping.Decisions.Lines.check_aux
    invoice_hub.Bookkeeping.Decisions.Lines.cost_lines
    invoice_hub.Bookkeeping.Decisions.Lines.decided_line
    invoice_hub.Bookkeeping.Decisions.direction_total
    invoice_hub.Bookkeeping.Decisions.Lines.known_line
    invoice_hub.Bookkeeping.Decisions.line_decisions
    invoice_hub.Bookkeeping.Decisions.materialize_lines
    invoice_hub.Bookkeeping.Decisions.Lines.project_aux
    invoice_hub.Bookkeeping.Decisions.Lines.raw_decisions
    invoice_hub.Bookkeeping.Decisions.Lines.source_lines_of
    invoice_hub.Bookkeeping.Decisions.Lines.stored_decisions
    invoice_hub.Bookkeeping.Decisions.Lines.tax_lines
    invoice_hub.Bookkeeping.Decisions.Lines.template_decisions
    invoice_hub.Bookkeeping.Money.is_cents invoice_hub.Bookkeeping.Money.signed
    invoice_hub.Bookkeeping.Money.Print.Digits.digit_char
    invoice_hub.Bookkeeping.Money.Print.Digits.drop_digits format_f
    invoice_hub.Bookkeeping.Money.Print.Digits.put_digits
    invoice_hub.Bookkeeping.Money.Print.Digits.put_fraction
    invoice_hub.Bookkeeping.Money.Print.Digits.put_integer
    invoice_hub.Bookkeeping.Money.Print.Digits.put_unsigned decimal_of_text
    invoice_hub.Bookkeeping.Money.Read.drop_underscores
    invoice_hub.Bookkeeping.Money.Read.read_exponent
    invoice_hub.Bookkeeping.Money.Read.read_fraction invoice_hub.Bookkeeping.Money.Read.read_integer
    invoice_hub.Bookkeeping.Money.Read.read_power invoice_hub.Bookkeeping.Money.Read.read_signed
    invoice_hub.Bookkeeping.Status.stable_payload invoice_hub.Bookkeeping.Status.write_store
    invoice_hub.Prelude.Dict.insert invoice_hub.Prelude.Order.lt_wf
    invoice_hub.Prelude.Text.join_words invoice_hub.Prelude.Text.lstrip
    invoice_hub.Prelude.Text.rstrip native.Mathlib.Bridge.IsLe native.Mathlib.Decide.dec_le
    native.Mathlib.Decide.dec_lt
decided_ok = refl

apply_voucher_decision-IsDecided_example :
    IsDecided test_host test_patch (store_in draft prepared) decided_value.0 decided_value.1
apply_voucher_decision-IsDecided_example =
    apply_voucher_decision-IsDecided test_host test_patch test_catalog (store_in draft prepared)
      decided_value.0 decided_value.1 (ok_value decided _ decided_ok)
