-- ===== src/Bookkeeping/Decisions/Lines.antt =====
-- `_line_decisions`, `_materialize_lines`, `_decided_line`, `_materialized_decision_templates`.
use invoice_hub.Prelude.Text.{is_blank, is_empty_text, join_words}
use invoice_hub.Prelude.Int.{eqb_ℤ, pos, ℤ, ◌+ℤ◌}
use invoice_hub.Bookkeeping.Decisions.Allocations.{amount, of_source}
use invoice_hub.Prelude.Dict.{Dict, contains, insert, lookup}
use invoice_hub.Prelude.{
  String, Bool, List, Option, [], any, elem, false, if◌then◌else◌, is_empty, length, ltb, none, not,
  select, some, str_eq, true, ◌&&◌, ◌++◌, ◌||◌, ◌∷◌,
}
use invoice_hub.Domain.{
  VoucherDraft, Direction, LineRole, TaxTreatment, VoucherLine, VoucherLineDecision,
  VoucherProjectAllocation, VoucherSourceLine, credit, debit, deductible, non_deductible,
}
use invoice_hub.Bookkeeping.Result.{
  Result, account_unusable, bad_auxiliary, bad_project_value, duplicate_decision, no_account,
  not_found, ok, or_raise, raise_if, unknown_account, unknown_line, ◌>>=◌, ◌>>◌,
}
use invoice_hub.Bookkeeping.Money.{Decimal, money, cents, format_f}
use invoice_hub.Bookkeeping.Status.{Host}

-- The fields of `AccountCatalogRecord` and `AuxiliaryCatalogRecord` that a decision reads.
pub record AccountRecord : Type 0 where
  pub code : String
  pub name : String
  pub enabled : Bool
  pub is_leaf : Bool
  pub required_aux_dimensions : List String

pub record AuxiliaryRecord : Type 0 where
  pub dimension : String
  pub value_id : String
  pub enabled : Bool

-- `LedgerCatalogSnapshot`
pub record LedgerCatalog : Type 0 where
  pub accounts_by_code : Dict AccountRecord
  pub auxiliary_by_value_id : Dict AuxiliaryRecord

abbrev pub direction_text : Direction → String
direction_text debit = "debit"
direction_text credit = "credit"

abbrev pub direction_eq : Direction → Direction → Bool
direction_eq debit debit = true
direction_eq credit credit = true
direction_eq _ _ = false

-- A stored line, or a line just made, as a decision template.
abbrev pub decision_of_line : VoucherLine → VoucherLineDecision
decision_of_line line = record {
  line_id = line.line_id;
  account_code = line.account_code;
  aux = line.aux;
  line_role = line.line_role;
  summary = line.summary;
  direction = direction_text line.direction;
  amount = line.amount;
  source_line_ids = line.source_line_ids;
  allocation_ids = line.allocation_ids;
}

-- The first two loops of `_line_decisions`: the templates, then the lines that have an account and
-- no template.
unfoldable pub template_decisions :
    List VoucherLineDecision → Dict VoucherLineDecision → Dict VoucherLineDecision
template_decisions [] decisions = decisions
template_decisions (t ∷ ts) decisions = template_decisions ts (insert t.line_id t decisions)

unfoldable pub stored_decisions :
    List VoucherLine → Dict VoucherLineDecision → Dict VoucherLineDecision
stored_decisions [] decisions = decisions
stored_decisions (l ∷ ls) decisions = stored_decisions ls (
    if not (is_empty_text l.line_id)
      && not (is_empty_text l.account_code)
      && not (contains l.line_id decisions)
    then insert l.line_id (decision_of_line l) decisions
    else decisions)

-- `known`
unfoldable pub known_line : VoucherDraft → String → Bool
known_line snapshot line_id =
    not (is_empty_text line_id)
    && (any (λ l. str_eq l.line_id line_id) snapshot.lines
        || any (λ t. str_eq t.line_id line_id) snapshot.line_decision_templates)

abbrev pub overlay : Option VoucherLineDecision → VoucherLineDecision → VoucherLineDecision
overlay none decision = decision
overlay (some existing) decision = record existing {
  account_code = decision.account_code;
  aux = decision.aux;
}

-- The third loop: `raw` is the whole list, in which no line may come twice.
unfoldable pub raw_decisions :
    VoucherDraft
    → List VoucherLineDecision
    → List VoucherLineDecision
    → Dict VoucherLineDecision
    → Result (Dict VoucherLineDecision)
raw_decisions snapshot raw [] decisions = ok decisions
raw_decisions snapshot raw (d ∷ ds) decisions = do
  raise_if (not (known_line snapshot d.line_id)) unknown_line
  raise_if (ltb 1 (length (select (λ r. str_eq r.line_id d.line_id) raw))) duplicate_decision
  raw_decisions snapshot raw ds
      (insert d.line_id (overlay (lookup d.line_id decisions) d) decisions)

unfoldable pub line_decisions :
    VoucherDraft → List VoucherLineDecision → Result (Dict VoucherLineDecision)
line_decisions snapshot raw =
    raw_decisions snapshot raw raw
      (stored_decisions snapshot.lines (template_decisions snapshot.line_decision_templates []))

-- The project's value in the auxiliary accounting of a line.
unfoldable pub project_aux :
    LedgerCatalog
    → AccountRecord
    → Option VoucherProjectAllocation
    → Dict String
    → Result (Dict String)
project_aux catalogs account none aux = ok aux
project_aux catalogs account (some allocation) aux =
    if is_blank allocation.project_id then ok aux else do
      value ←
          or_raise (lookup allocation.project_id catalogs.auxiliary_by_value_id) bad_project_value
      raise_if (not value.enabled) bad_project_value
      ok (
          if elem value.dimension account.required_aux_dimensions
          then insert value.dimension value.value_id aux
          else aux)

-- The loop over `aux.items()`.
unfoldable pub check_aux : LedgerCatalog → Dict String → Result (Unit {0})
check_aux catalogs [] = ok tt
check_aux catalogs ((dimension, value_id) ∷ aux) = do
  value ← or_raise (lookup value_id catalogs.auxiliary_by_value_id) bad_auxiliary
  raise_if (not (str_eq value.dimension dimension) || not value.enabled) bad_auxiliary
  check_aux catalogs aux

-- `a or b` on optional values
abbrev pub first_of_two {ℓ} : {A : Type ℓ} → Option A → Option A → Option A
first_of_two none b = b
first_of_two (some a) b = some a

abbrev pub allocation_id_of : Option VoucherProjectAllocation → Option String
allocation_id_of none = none
allocation_id_of (some a) = some a.allocation_id

abbrev pub allocation_ids_of : Option VoucherProjectAllocation → List String
allocation_ids_of none = []
allocation_ids_of (some a) = a.allocation_id ∷ []

-- `_decided_line`
unfoldable pub decided_line :
    Host
    → Dict VoucherLineDecision
    → LedgerCatalog
    → VoucherSourceLine
    → LineRole
    → Direction
    → Decimal
    → String
    → Option VoucherProjectAllocation
    → Result VoucherLine
decided_line host decisions catalogs source role direction amount summary allocation = do
  let template_line_id = host.line_sha256 source.source_line_id none role
  let line_id = host.line_sha256 source.source_line_id (allocation_id_of allocation) role
  decision ←
      or_raise (first_of_two (lookup line_id decisions) (lookup template_line_id decisions))
        no_account
  raise_if (is_blank decision.account_code) no_account
  account ← or_raise (lookup decision.account_code catalogs.accounts_by_code) unknown_account
  raise_if (not account.enabled || not account.is_leaf) account_unusable
  aux ← project_aux catalogs account allocation decision.aux
  check_aux catalogs aux
  ok (record {
    line_id = line_id;
    line_role = role;
    summary = summary;
    account_code = account.code;
    account_name = account.name;
    direction = direction;
    amount = format_f amount;
    aux = aux;
    source_line_ids = source.source_line_id ∷ [];
    allocation_ids = allocation_ids_of allocation;
  })

-- The amount that an allocation costs: with the tax where that is not deductible.
abbrev pub cost_text : TaxTreatment → VoucherProjectAllocation → String
cost_text non_deductible a = a.total_amount
cost_text _ a = a.pretax_amount

-- The inner loop of `_materialize_lines`: a debit line for each allocation of a source line.
unfoldable pub cost_lines :
    Host
    → Dict VoucherLineDecision
    → LedgerCatalog
    → TaxTreatment
    → VoucherSourceLine
    → List VoucherProjectAllocation
    → Result (List VoucherLine)
cost_lines host decisions catalogs tax_treatment source [] = ok []
cost_lines host decisions catalogs tax_treatment source (a ∷ allocations) = do
  cost_amount ← money (cost_text tax_treatment a)
  line ←
      decided_line host decisions catalogs source LineRole.cost debit cost_amount
        (join_words
          ("采购" ∷ source.seller ∷ source.item_name ∷ a.project_name ∷ source.invoice_no ∷ []))
        (some a)
  lines ← cost_lines host decisions catalogs tax_treatment source allocations
  ok (line ∷ lines)

abbrev pub source_summary : VoucherSourceLine → String
source_summary source =
    join_words ("采购" ∷ source.seller ∷ source.item_name ∷ source.invoice_no ∷ [])

-- The input tax of a source line: a debit line where it is deductible and not zero.
unfoldable pub tax_lines :
    Host
    → Dict VoucherLineDecision
    → LedgerCatalog
    → TaxTreatment
    → VoucherSourceLine
    → Decimal
    → Result (List VoucherLine)
tax_lines host decisions catalogs deductible source tax =
    if eqb_ℤ (cents tax) (pos 0) then ok [] else do
      line ←
          decided_line host decisions catalogs source LineRole.input_tax debit tax
            (source_summary source) none
      ok (line ∷ [])
tax_lines host decisions catalogs _ source tax = ok []

-- One round of the outer loop.
unfoldable pub source_lines_of :
    Host
    → Dict VoucherLineDecision
    → LedgerCatalog
    → TaxTreatment
    → List VoucherProjectAllocation
    → VoucherSourceLine
    → Result (List VoucherLine)
source_lines_of host decisions catalogs tax_treatment allocations source = do
  let own = of_source source.source_line_id allocations
  raise_if (is_empty own) (not_found source.source_line_id)
  tax ← money source.tax_amount
  total ← money source.total_amount
  costs ← cost_lines host decisions catalogs tax_treatment source own
  taxes ← tax_lines host decisions catalogs tax_treatment source tax
  payable_line ←
      decided_line host decisions catalogs source LineRole.payable credit total
        (source_summary source) none
  ok (costs ++ (taxes ++ payable_line ∷ []))

unfoldable pub materialize_lines :
    Host
    → Dict VoucherLineDecision
    → LedgerCatalog
    → TaxTreatment
    → List VoucherProjectAllocation
    → List VoucherSourceLine
    → Result (List VoucherLine)
materialize_lines host decisions catalogs tax_treatment allocations [] = ok []
materialize_lines host decisions catalogs tax_treatment allocations (source ∷ sources) = do
  lines ← source_lines_of host decisions catalogs tax_treatment allocations source
  rest ← materialize_lines host decisions catalogs tax_treatment allocations sources
  ok (lines ++ rest)

-- `sum(_money(line.amount) for line in lines if line.direction == direction)`
unfoldable pub direction_total : Direction → List VoucherLine → Result ℤ
direction_total direction [] = ok (pos 0)
direction_total direction (line ∷ lines) =
    let rest = direction_total direction lines in
    if direction_eq line.direction direction
    then (do first ← amount line.amount; total ← rest; ok (first +ℤ total))
    else rest
