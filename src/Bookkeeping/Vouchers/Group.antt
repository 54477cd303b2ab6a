-- ===== src/Bookkeeping/Vouchers/Group.antt =====
-- `_weak_evidence_anchor` and `generate_voucher_drafts`: the rows by invoice, and a draft for each.
use Prim.Native.String.{◌++◌ as append}
use Prim.Native.Char.{code}
use invoice_hub.Prelude.Text.{is_empty_text, or_else}
use invoice_hub.Bookkeeping.Vouchers.Facts.{VoucherHost}
use invoice_hub.Domain.{VoucherDraft}
use invoice_hub.Bookkeeping.Vouchers.Row.{Row, clean, field_of, first_non_empty, nat_text}
use invoice_hub.Bookkeeping.Result.{Result, ok, ◌>>=◌}
use invoice_hub.Prelude.{
  List, Option, String, [], if◌then◌else◌, none, some, suc, ℕ, ◌++◌, ◌==◌, ◌∷◌,
}
use invoice_hub.Bookkeeping.Vouchers.Draft.{DraftHeader, column, draft_from_group, hash_of}
use invoice_hub.Prelude.Dict.{Dict, insert, lookup}
use invoice_hub.Bookkeeping.Vouchers.Lines.{AccountPayload, normalize_account_table}

-- `s.removeprefix(prefix)`: `none` where the text does not start with the prefix
unfoldable pub after_prefix : String → String → Option String
after_prefix String.[] s = some s
after_prefix (String.◌∷◌ c prefix) String.[] = none
after_prefix (String.◌∷◌ c prefix) (String.◌∷◌ d s) =
    let rest = after_prefix prefix s in if code c == code d then rest else none

unfoldable pub remove_prefix : String → String → String
remove_prefix prefix s = elim (after_prefix prefix s) [ none ↦ s | some rest ↦ rest ]

-- `_weak_evidence_anchor`: an empty hash stands for no source directory, too.
unfoldable pub weak_evidence_anchor : VoucherHost → Row → ℕ → String
weak_evidence_anchor host row index =
    let name = clean (field_of row "源文件") in
    let hash = hash_of host.source_hash name in
    if is_empty_text name
    then append "row:" (nat_text index)
    else if is_empty_text hash
    then append "path:" name
    else append "sha256:" hash

-- `group_key`
unfoldable pub group_key : VoucherHost → ℕ → Row → String
group_key host index row =
    or_else (clean (field_of row "发票号码")) (append "weak:" (weak_evidence_anchor host row index))

-- `enumerate(rows, start=index)`
unfoldable pub numbered : ℕ → List Row → List (ℕ × Row)
numbered index [] = []
numbered index (row ∷ rows) = (index, row) ∷ numbered (suc index) rows

abbrev pub old_rows : Option (List (ℕ × Row)) → List (ℕ × Row)
old_rows none = []
old_rows (some rows) = rows

-- `groups.setdefault(key, []).append(entry)`
unfoldable pub add_to_group : String → ℕ × Row → Dict (List (ℕ × Row)) → Dict (List (ℕ × Row))
add_to_group key entry groups = insert key (old_rows (lookup key groups) ++ entry ∷ []) groups

-- The loop that groups the rows.
unfoldable pub group_rows :
    VoucherHost → List (ℕ × Row) → Dict (List (ℕ × Row)) → Dict (List (ℕ × Row))
group_rows host [] groups = groups
group_rows host ((index, row) ∷ rows) groups =
    group_rows host rows (add_to_group (group_key host index row) (index, row) groups)

-- The draft of each group.
unfoldable pub drafts_of :
    VoucherHost → DraftHeader → Dict (List (ℕ × Row)) → Result (List VoucherDraft)
drafts_of host header [] = ok []
drafts_of host header ((key, rows) ∷ groups) = do
  first ←
      draft_from_group host header (first_non_empty (column "发票号码" rows))
        (remove_prefix "weak:" key) rows
  rest ← drafts_of host header groups
  ok (first ∷ rest)

-- The header of a call: the account table in its normal form, and its hash where none is given.
unfoldable pub header_of : VoucherHost → AccountPayload → DraftHeader → DraftHeader
header_of host payload header =
    let accounts = normalize_account_table payload in
    record header {
      account_table = accounts;
      account_table_sha256 = or_else header.account_table_sha256 (host.accounts_sha256 accounts);
    }

-- `generate_voucher_drafts`
unfoldable pub generate_voucher_drafts :
    VoucherHost → DraftHeader → AccountPayload → List Row → Result (List VoucherDraft)
generate_voucher_drafts host header payload rows =
    drafts_of host (header_of host payload header) (group_rows host (numbered 1 rows) [])
