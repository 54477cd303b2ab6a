-- ===== src/Bookkeeping/Decisions/Allocations.antt =====
-- `_validated_allocations`: the project allocations split each source line to the cent.
-- Sums and comparisons of amounts that `_money` accepts are those of their cents.
use invoice_hub.Prelude.Text.{is_blank}
use invoice_hub.Prelude.Int.{eqb_ℤ, ltb_ℤ, pos, ℤ, ◌+ℤ◌}
use invoice_hub.Prelude.{
  String, Bool, List, elem, any, select, is_empty, ◌∷◌, false, str_eq, ◌||◌, ◌++◌, [], not, ◌&&◌,
}
use invoice_hub.Domain.{VoucherSourceLine, VoucherProjectAllocation}
use invoice_hub.Bookkeeping.Result.{
  Result, ok, raise_if, allocation_sum, bad_allocation_id, duplicate_source_line,
  negative_allocation, no_project, unallocated_source, unbalanced_allocation, unknown_source_line,
  ◌>>=◌, ◌>>◌,
}
use invoice_hub.Bookkeeping.Money.{money, cents}

-- `_money(value, field)`, as cents
unfoldable pub amount : String → Result ℤ
amount value = do number ← money value; ok (cents number)

abbrev pub source_ids : List VoucherSourceLine → List String
source_ids [] = []
source_ids (s ∷ ss) = s.source_line_id ∷ source_ids ss

-- `len(source_by_id) != len(source_lines)`: some id comes twice.
unfoldable pub has_duplicates : List String → Bool
has_duplicates [] = false
has_duplicates (x ∷ xs) = elem x xs || has_duplicates xs

-- `allocations_by_source[source_line_id]`
abbrev pub of_source : String → List VoucherProjectAllocation → List VoucherProjectAllocation
of_source source_line_id = select (λ a. str_eq a.source_line_id source_line_id)

-- The checks of one round of the loop over the raw allocations.
unfoldable pub check_allocation :
    List String → List String → VoucherProjectAllocation → Result (Unit {0})
check_allocation known seen a = do
  raise_if (not (elem a.source_line_id known)) unknown_source_line
  raise_if (is_blank a.allocation_id || elem a.allocation_id seen) bad_allocation_id
  raise_if (is_blank a.project_id && is_blank a.project_name) no_project
  pretax ← amount a.pretax_amount
  tax ← amount a.tax_amount
  total ← amount a.total_amount
  raise_if (ltb_ℤ pretax (pos 0) || ltb_ℤ tax (pos 0) || not (ltb_ℤ (pos 0) total))
      negative_allocation
  raise_if (not (eqb_ℤ (pretax +ℤ tax) total)) unbalanced_allocation

-- The loop; `seen` is `allocation_ids`.
unfoldable pub check_allocations :
    List String → List String → List VoucherProjectAllocation → Result (Unit {0})
check_allocations known seen [] = ok tt
check_allocations known seen (a ∷ raw) = do
  check_allocation known seen a
  check_allocations known (a.allocation_id ∷ seen) raw

-- `sum(_money(getattr(value, field)) for value in allocations)`
unfoldable pub sum_amounts :
    (VoucherProjectAllocation → String) → List VoucherProjectAllocation → Result ℤ
sum_amounts field [] = ok (pos 0)
sum_amounts field (a ∷ allocations) = do
  first ← amount (field a)
  rest ← sum_amounts field allocations
  ok (first +ℤ rest)

-- One round of the last loop: the allocations of a source line add up to it.
unfoldable pub check_source : List VoucherProjectAllocation → VoucherSourceLine → Result (Unit {0})
check_source raw source = do
  pretax ← amount source.pretax_amount
  tax ← amount source.tax_amount
  total ← amount source.total_amount
  let allocations = of_source source.source_line_id raw
  pretax_sum ← sum_amounts (λ a. a.pretax_amount) allocations
  tax_sum ← sum_amounts (λ a. a.tax_amount) allocations
  total_sum ← sum_amounts (λ a. a.total_amount) allocations
  raise_if (not (eqb_ℤ pretax_sum pretax && eqb_ℤ tax_sum tax && eqb_ℤ total_sum total))
      allocation_sum

unfoldable pub check_sources :
    List VoucherProjectAllocation → List VoucherSourceLine → Result (Unit {0})
check_sources raw [] = ok tt
check_sources raw (source ∷ sources) = do check_source raw source; check_sources raw sources

-- `[allocation for source in source_lines for allocation in allocations_by_source[source]]`
unfoldable pub in_source_order :
    List VoucherProjectAllocation → List VoucherSourceLine → List VoucherProjectAllocation
in_source_order raw [] = []
in_source_order raw (source ∷ sources) =
    of_source source.source_line_id raw ++ in_source_order raw sources

unfoldable pub validated_allocations :
    List VoucherSourceLine → List VoucherProjectAllocation → Result (List VoucherProjectAllocation)
validated_allocations source_lines raw = do
  raise_if (has_duplicates (source_ids source_lines)) duplicate_source_line
  check_allocations (source_ids source_lines) [] raw
  raise_if (any (λ s. is_empty (of_source s.source_line_id raw)) source_lines) unallocated_source
  check_sources raw source_lines
  ok (in_source_order raw source_lines)
