-- ===== src/Bookkeeping/Vouchers/Lines.antt =====
-- `_voucher_lines_for_source`, `_missing_rule_accounts` and `normalize_account_table`.
use invoice_hub.Prelude.Text.{is_blank, is_empty_text, join_words, strip}
use invoice_hub.Bookkeeping.Vouchers.Row.{as_decimal, money_text}
use invoice_hub.Bookkeeping.Result.{Result, ok, ◌>>=◌}
use invoice_hub.Bookkeeping.Status.{Host}
use invoice_hub.Domain.{Direction, LineRole, VoucherLine, VoucherSourceLine, credit, debit}
use invoice_hub.Prelude.Dict.{Dict, contains, insert, lookup}
use invoice_hub.Bookkeeping.Money.{Decimal}
use invoice_hub.Prelude.{
  Bool, List, Option, String, [], elem, if◌then◌else◌, is_empty, none, select, some, ◌++◌, ◌==◌,
  ◌||◌, ◌∷◌,
}
use invoice_hub.Bookkeeping.Mapping.Rule.{AccountMappingRule}
use Prim.Native.String.{◌++◌ as append}

-- The accounts and the auxiliary values of the lines of one source line.
pub record LineAccounts : Type 0 where
  pub debit_code : String
  pub debit_name : String
  pub credit_code : String
  pub credit_name : String
  pub tax_code : String
  pub tax_name : String
  pub cost_aux : Dict String
  pub tax_aux : Dict String
  pub credit_aux : Dict String

abbrev pub no_accounts : LineAccounts
no_accounts = record {
  debit_code = "";
  debit_name = "";
  credit_code = "";
  credit_name = "";
  tax_code = "";
  tax_name = "";
  cost_aux = [];
  tax_aux = [];
  credit_aux = [];
}

abbrev pub voucher_line :
    Host
    → VoucherSourceLine
    → LineRole
    → String
    → String
    → String
    → Direction
    → Decimal
    → Dict String
    → List String
    → VoucherLine
voucher_line host source role summary code name direction number aux allocation_ids = record {
  line_id = host.line_sha256 source.source_line_id none role;
  line_role = role;
  summary = summary;
  account_code = code;
  account_name = name;
  direction = direction;
  amount = money_text number;
  aux = aux;
  source_line_ids = source.source_line_id ∷ [];
  allocation_ids = allocation_ids;
}

abbrev pub is_zero_decimal : Decimal → Bool
is_zero_decimal d = d.coefficient == 0

-- The line of the tax, where that is not zero.
unfoldable pub tax_part :
    Host → VoucherSourceLine → String → LineAccounts → Decimal → List VoucherLine
tax_part host source summary a tax =
    if is_zero_decimal tax
    then []
    else voucher_line host source LineRole.input_tax summary a.tax_code a.tax_name debit tax
        a.tax_aux []
      ∷ []

-- `_voucher_lines_for_source`
unfoldable pub voucher_lines_for_source :
    Host → VoucherSourceLine → String → String → LineAccounts → Result (List VoucherLine)
voucher_lines_for_source host source allocation_id invoice_number a = do
  pretax ← as_decimal source.pretax_amount
  tax ← as_decimal source.tax_amount
  total ← as_decimal source.total_amount
  let summary = strip (
      join_words
        ("采购" ∷ source.seller ∷ source.item_name ∷ source.project_name ∷ invoice_number ∷ []))
  ok (
      voucher_line host source LineRole.cost summary a.debit_code a.debit_name debit pretax
        a.cost_aux (allocation_id ∷ [])
      ∷ (tax_part host source summary a tax
          ++ voucher_line host source LineRole.payable summary a.credit_code a.credit_name credit
              total a.credit_aux []
            ∷ []))

-- The account table of a call: a list of codes with their names (`none` for what is no
-- dictionary), a dictionary of names by code, or no dictionary at all.
pub data AccountPayload : Type 0 where
  no_table : AccountPayload
  account_list : List (Option (String × String)) → AccountPayload
  account_names : Dict String → AccountPayload

unfoldable pub table_of_list : List (Option (String × String)) → Dict String → Dict String
table_of_list [] table = table
table_of_list (none ∷ rest) table = table_of_list rest table
table_of_list (some (c, name) ∷ rest) table =
    table_of_list rest (if is_blank c then table else insert (strip c) (strip name) table)

unfoldable pub table_of_names : Dict String → Dict String → Dict String
table_of_names [] table = table
table_of_names ((c, name) ∷ rest) table =
    table_of_names rest (if is_blank c then table else insert (strip c) (strip name) table)

-- `normalize_account_table`
unfoldable pub normalize_account_table : AccountPayload → Dict String
normalize_account_table no_table = []
normalize_account_table (account_list accounts) = table_of_list accounts []
normalize_account_table (account_names names) = table_of_names names []

unfoldable pub missing_account : Dict String → String → String → List String
missing_account table label c =
    if is_blank c || contains (strip c) table
    then []
    else append label (append "编码缺失于科目表: " (strip c)) ∷ []

-- `_missing_rule_accounts`
unfoldable pub missing_rule_accounts : AccountMappingRule → Dict String → List String
missing_rule_accounts rule table =
    if is_empty table
    then "科目表为空或缺失" ∷ []
    else missing_account table "借方科目" rule.debit_account_code
      ++ (missing_account table "贷方科目" rule.credit_account_code
          ++ missing_account table "税额科目" rule.tax_account_code)

-- `account_table.get(code, default)`
abbrev pub name_or : Dict String → String → String → String
name_or table c otherwise = elim (lookup c table) [ none ↦ otherwise | some name ↦ name ]

abbrev pub texts_or_none : Option (List String) → List String
texts_or_none none = []
texts_or_none (some texts) = texts

-- `{key: value for key, value in aux.items() if key in account_required_aux.get(code, [])}`
unfoldable pub required_part : Dict (List String) → String → Dict String → Dict String
required_part required c aux =
    let dimensions = texts_or_none (lookup c required) in select (λ e. elem e.0 dimensions) aux

-- The accounts of the lines, by the rule that is matched.
unfoldable pub line_accounts :
    Dict String → Dict (List String) → Option AccountMappingRule → LineAccounts
line_accounts table required none = no_accounts
line_accounts table required (some rule) = record {
  debit_code = rule.debit_account_code;
  debit_name = name_or table rule.debit_account_code rule.debit_account_name;
  credit_code = rule.credit_account_code;
  credit_name = name_or table rule.credit_account_code rule.credit_account_name;
  tax_code = rule.tax_account_code;
  tax_name =
      if is_empty_text rule.tax_account_code then "" else name_or table rule.tax_account_code "";
  cost_aux = required_part required rule.debit_account_code rule.aux_dimensions;
  tax_aux = required_part required rule.tax_account_code rule.aux_dimensions;
  credit_aux = required_part required rule.credit_account_code rule.aux_dimensions;
}
