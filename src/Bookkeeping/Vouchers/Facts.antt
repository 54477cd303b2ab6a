-- ===== src/Bookkeeping/Vouchers/Facts.antt =====
-- What `_draft_from_group` reads from one row of a group.
use Prim.Native.String.{◌++◌ as append}
use invoice_hub.Bookkeeping.Mapping.Resolve.{resolve_account_mapping}
use invoice_hub.Bookkeeping.Vouchers.Lines.{
  line_accounts, missing_rule_accounts, name_or, voucher_lines_for_source,
}
use invoice_hub.Prelude.Text.{is_empty_text}
use invoice_hub.Bookkeeping.Vouchers.Row.{
  Row, clean, difference, exceeds_tail, field_of, first_non_empty, money_text, nat_text, row_money,
  row_marker,
}
use invoice_hub.Bookkeeping.Result.{Result, ok, ◌>>=◌}
use invoice_hub.Domain.{
  ResolutionOutcome, VoucherLine, VoucherProjectAllocation, VoucherRuleResolution,
  VoucherSourceLine, ambiguous, matched, unmatched,
}
use invoice_hub.Prelude.{
  List, Option, String, [], if◌then◌else◌, is_empty, map, none, some, ℕ, ◌++◌, ◌∷◌,
}
use invoice_hub.Bookkeeping.Status.{Host}
use invoice_hub.Prelude.Dict.{Dict}
use invoice_hub.Bookkeeping.Money.{Decimal}
use invoice_hub.Bookkeeping.Mapping.Rule.{AccountMappingRule, MappingHost}

-- From outside: `base` and `mapping` as elsewhere, `file_sha256` of a file below the source
-- directory (`none` without such a directory, an empty text where there is no such file), and
-- `canonical_sha256` of the dictionaries that identify a source line, an item and an allocation, of
-- the resolutions and of the account table. Files do not change while drafts are made.
pub record SourceLineKey : Type 0 where
  pub source_file_sha256 : String
  pub source_file : String
  pub source_row_no : ℕ
  pub invoice_no : String
  pub seller : String
  pub item_name : String
  pub project_name : String
  pub quantity : String
  pub pretax_amount : String
  pub tax_amount : String
  pub total_amount : String

pub record VoucherHost : Type 0 where
  pub base : Host
  pub mapping : MappingHost
  pub source_hash : Option (String → String)
  pub source_line_sha256 : SourceLineKey → String
  pub item_sha256 : String → String → String → String
  pub allocation_sha256 : String → String → String
  pub resolutions_sha256 : List VoucherRuleResolution → String
  pub accounts_sha256 : Dict String → String

-- What the rows of a group share.
pub record GroupFacts : Type 0 where
  pub invoice_number : String
  pub seller : String
  pub invoice_date : String
  pub source_file_hashes : Dict String
  pub rules : List AccountMappingRule
  pub account_table : Dict String
  pub account_required_aux : Dict (List String)

-- The amounts of a row, with the reasons that reading them adds.
pub record RowAmounts : Type 0 where
  pub amount : Decimal
  pub tax_amount : Decimal
  pub total : Decimal
  pub reasons : List String

-- The reason of a missing tax rate.
unfoldable pub rate_reasons : Row → ℕ → List String
rate_reasons row index =
    if is_empty_text (clean (field_of row "税率"))
    then append "第 " (append (nat_text index) " 行税率缺失") ∷ []
    else []

-- The reason of a row whose amounts do not add up.
unfoldable pub tail_reasons : ℕ → Decimal → List String
tail_reasons index row_diff =
    if exceeds_tail row_diff
    then append "第 " (append (nat_text index) (append " 行金额尾差超过 0.01: " (money_text row_diff))) ∷ []
    else []

unfoldable pub row_amounts : Row → ℕ → RowAmounts
row_amounts row index =
    let a = row_money row "金额(除税)" index in
    let t = row_money row "税金" index in
    let z = row_money row "价税合计" index in
    record {
      amount = a.0;
      tax_amount = t.0;
      total = z.0;
      reasons =
          a.1
          ++ (t.1
              ++ (z.1 ++ (rate_reasons row index ++ tail_reasons index (difference a.0 t.0 z.0))));
    }

unfoldable pub item_name_of : Row → String
item_name_of row = first_non_empty (
    field_of row "发票代码(**内文字)"
    ∷ field_of row "项目名称"
    ∷ field_of row "备注项目名称"
    ∷ field_of row "规格型号"
    ∷ [])

unfoldable pub source_line_of : VoucherHost → GroupFacts → ℕ → Row → RowAmounts → VoucherSourceLine
source_line_of host group index row amounts =
    let project = clean (field_of row "内部项目名称") in
    let item_name = item_name_of row in
    let source_file = clean (field_of row "源文件") in
    let file_hash = name_or group.source_file_hashes source_file "" in
    let quantity = clean (field_of row "数量") in
    let pretax = money_text amounts.amount in
    let tax = money_text amounts.tax_amount in
    let total = money_text amounts.total in
    record {
      source_line_id = host.source_line_sha256 (record {
        source_file_sha256 = file_hash;
        source_file = source_file;
        source_row_no = index;
        invoice_no = group.invoice_number;
        seller = group.seller;
        item_name = item_name;
        project_name = project;
        quantity = quantity;
        pretax_amount = pretax;
        tax_amount = tax;
        total_amount = total;
      });
      source_row_no = index;
      source_type = "purchase_invoice";
      invoice_no = group.invoice_number;
      seller = group.seller;
      item_name = item_name;
      item_key =
          host.item_sha256 item_name (clean (field_of row "规格型号")) (clean (field_of row "单位"));
      project_name = project;
      quantity = quantity;
      pretax_amount = pretax;
      tax_amount = tax;
      total_amount = total;
      source_file = source_file;
      source_file_sha256 = file_hash;
    }

unfoldable pub allocation_of : VoucherHost → VoucherSourceLine → VoucherProjectAllocation
allocation_of host source = record {
  allocation_id = host.allocation_sha256 source.source_line_id source.project_name;
  source_line_id = source.source_line_id;
  project_id = "";
  project_name = source.project_name;
  pretax_amount = source.pretax_amount;
  tax_amount = source.tax_amount;
  total_amount = source.total_amount;
}

-- `", ".join(ids)`
unfoldable pub joined_ids : List String → String
joined_ids [] = ""
joined_ids (i ∷ ids) =
    let rest = joined_ids ids in if is_empty ids then i else append i (append ", " rest)

-- The reason of a row that several rules match.
unfoldable pub conflict_reasons : ℕ → List String → ResolutionOutcome → List String
conflict_reasons index ids ambiguous =
    append "第 " (append (nat_text index) (append " 行映射规则冲突: " (joined_ids ids))) ∷ []
conflict_reasons index ids matched = []
conflict_reasons index ids unmatched = []

-- The reasons of accounts that the table lacks, each with the number of its row.
unfoldable pub account_reasons : ℕ → Dict String → Option AccountMappingRule → List String
account_reasons index table none = []
account_reasons index table (some rule) =
    map (λ reason. append "第 " (append (nat_text index) (append " 行" reason)))
      (missing_rule_accounts rule table)

-- What one row adds to a draft.
pub record RowFacts : Type 0 where
  pub amounts : RowAmounts
  pub reasons : List String
  pub row_marker : String
  pub source_line : VoucherSourceLine
  pub allocation : VoucherProjectAllocation
  pub resolution : VoucherRuleResolution
  pub rule : Option AccountMappingRule
  pub lines : List VoucherLine

-- The body of the loop over the rows.
unfoldable pub row_facts : VoucherHost → GroupFacts → ℕ → Row → Result RowFacts
row_facts host group index row = do
  let amounts = row_amounts row index
  let source = source_line_of host group index row amounts
  let allocation = allocation_of host source
  (resolution, rule) ←
      resolve_account_mapping host.mapping group.rules source.source_line_id (record {
        seller = group.seller;
        internal_project = source.project_name;
        source_type = "purchase_invoice";
        item = source.item_name;
        effective_date = group.invoice_date;
      })
  lines ←
      voucher_lines_for_source host.base source allocation.allocation_id group.invoice_number
        (line_accounts group.account_table group.account_required_aux rule)
  ok (record {
    amounts = amounts;
    reasons =
        amounts.reasons
        ++ (conflict_reasons index resolution.candidate_rule_ids resolution.outcome
            ++ account_reasons index group.account_table rule);
    row_marker = row_marker index row;
    source_line = source;
    allocation = allocation;
    resolution = resolution;
    rule = rule;
    lines = lines;
  })

-- The loop over the rows of a group.
unfoldable pub all_facts : VoucherHost → GroupFacts → List (ℕ × Row) → Result (List RowFacts)
all_facts host group [] = ok []
all_facts host group ((index, row) ∷ rows) = do
  first ← row_facts host group index row
  rest ← all_facts host group rows
  ok (first ∷ rest)
