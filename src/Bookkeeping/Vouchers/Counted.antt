-- ===== src/Bookkeeping/Vouchers/Counted.antt =====
-- How many drafts and source lines a call makes.
use invoice_hub.Bookkeeping.Money.{zero_decimal}
use invoice_hub.Bookkeeping.Mapping.Resolve.{fingerprints}
use invoice_hub.Bookkeeping.Vouchers.Group.{
  add_to_group, drafts_of, generate_voucher_drafts, group_key, group_rows, header_of, numbered,
  old_rows,
}
use invoice_hub.Domain.{VoucherDraft, credit, debit}
use invoice_hub.Bookkeeping.Vouchers.Row.{Row}
use invoice_hub.Prelude.{
  List, String, [], ap, arith, length, length-append, map, refl, suc, sym, ℕ, ◌++◌, ◌+◌, ◌∙◌, ◌∷◌,
  ◌≡◌,
}
use invoice_hub.Bookkeeping.Vouchers.Facts.{GroupFacts, RowFacts, VoucherHost, all_facts, row_facts}
use invoice_hub.Bookkeeping.Vouchers.Draft.{
  DraftHeader, all_lines, draft_from_group, group_facts, sealed, side_total, unsealed_draft,
}
use invoice_hub.Prelude.Dict.{Dict, insert, lookup}
use invoice_hub.Bookkeeping.Vouchers.Lines.{AccountPayload}
use invoice_hub.Bookkeeping.Result.{>>=-eq-ok, ok, ok-injective}

-- The number of rows in all groups.
unfoldable pub grouped_count : Dict (List (ℕ × Row)) → ℕ
grouped_count [] = 0
grouped_count ((_, rows) ∷ groups) = length rows + grouped_count groups

insert-grouped_count :
    (k : String) (e : ℕ × Row) (groups : Dict (List (ℕ × Row)))
    → grouped_count (insert k (old_rows (lookup k groups) ++ e ∷ []) groups)
      ≡ suc (grouped_count groups)
unfolding grouped_count lookup insert
insert-grouped_count k e [] = refl
insert-grouped_count k e ((j, rows) ∷ groups) =
    ground (arith, length-append rows (e ∷ []), insert-grouped_count k e groups)

group_rows-grouped_count :
    (host : VoucherHost) (rows : List (ℕ × Row)) (groups : Dict (List (ℕ × Row)))
    → grouped_count (group_rows host rows groups) ≡ length rows + grouped_count groups
unfolding group_rows add_to_group
group_rows-grouped_count host [] groups = omega arith
group_rows-grouped_count host ((index, row) ∷ rows) groups =
    let k = group_key host index row in
    omega (
      arith,
      group_rows-grouped_count host rows (add_to_group k (index, row) groups),
      insert-grouped_count k (index, row) groups,
    )

-- The rows of a draft, one source line each.
unfoldable pub source_count : List VoucherDraft → ℕ
source_count [] = 0
source_count (d ∷ ds) = length d.source_lines + source_count ds

length-map_source : (fs : List RowFacts) → length (map (λ f. f.source_line) fs) ≡ length fs
length-map_source [] = refl
length-map_source (f ∷ fs) = ap suc (length-map_source fs)

all_facts-length :
    (host : VoucherHost) (group : GroupFacts) (rows : List (ℕ × Row)) (fs : List RowFacts)
    → all_facts host group rows ≡ ok fs
    → length fs ≡ length rows
unfolding all_facts
all_facts-length host group [] fs h = ap length (sym (ok-injective h))
all_facts-length host group ((index, row) ∷ rows) fs h =
    let (f, hf, h₁) = >>=-eq-ok (row_facts host group index row) _ h in
    let (rest, hr, h₂) = >>=-eq-ok (all_facts host group rows) _ h₁ in
    sym (ap length (ok-injective h₂)) ∙ ap suc (all_facts-length host group rows rest hr)

draft_from_group-length :
    (host : VoucherHost) (header : DraftHeader) (invoice_number weak_anchor : String)
    (rows : List (ℕ × Row)) (d : VoucherDraft)
    → draft_from_group host header invoice_number weak_anchor rows ≡ ok d
    → length d.source_lines ≡ length rows
unfolding draft_from_group sealed unsealed_draft
draft_from_group-length host header n anchor rows d h =
    let (fs, hf, h₁) = >>=-eq-ok (all_facts host (group_facts host header n rows) rows) _ h in
    let (_, _, h₂) = >>=-eq-ok (side_total debit zero_decimal (all_lines fs)) _ h₁ in
    let (_, _, h₃) = >>=-eq-ok (side_total credit zero_decimal (all_lines fs)) _ h₂ in
    let (_, _, h₄) = >>=-eq-ok (fingerprints host.mapping _) _ h₃ in
    sym (ap (λ v. length v.source_lines) (ok-injective h₄))
    ∙ (length-map_source fs ∙ all_facts-length host (group_facts host header n rows) rows fs hf)

drafts_of-source_count :
    (host : VoucherHost) (header : DraftHeader) (groups : Dict (List (ℕ × Row)))
    (ds : List VoucherDraft)
    → drafts_of host header groups ≡ ok ds
    → (length ds ≡ length groups) × (source_count ds ≡ grouped_count groups)
unfolding drafts_of source_count grouped_count
drafts_of-source_count host header [] ds h =
    (ap length (sym (ok-injective h)), ap source_count (sym (ok-injective h)))
drafts_of-source_count host header ((key, rows) ∷ groups) ds h =
    let (d, hd, h₁) = >>=-eq-ok (draft_from_group host header _ _ rows) _ h in
    let (rest, hr, h₂) = >>=-eq-ok (drafts_of host header groups) _ h₁ in
    let (e₁, e₂) = drafts_of-source_count host header groups rest hr in
    (
      sym (ap length (ok-injective h₂)) ∙ ap suc e₁,
      sym (ap source_count (ok-injective h₂))
          ∙ omega (arith, draft_from_group-length host header _ _ rows d hd, e₂),
    )

numbered-length : (index : ℕ) (rows : List Row) → length (numbered index rows) ≡ length rows
unfolding numbered
numbered-length index [] = refl
numbered-length index (row ∷ rows) = ap suc (numbered-length (suc index) rows)

-- The drafts of a call have one source line for each row, and there is one draft for each key.
pub generate_voucher_drafts-source_count :
    (host : VoucherHost) (header : DraftHeader) (payload : AccountPayload) (rows : List Row)
    (ds : List VoucherDraft)
    → generate_voucher_drafts host header payload rows ≡ ok ds
    → (length ds ≡ length (group_rows host (numbered 1 rows) [])) × (source_count ds ≡ length rows)
unfolding generate_voucher_drafts grouped_count
generate_voucher_drafts-source_count host header payload rows ds h =
    let (e₁, e₂) =
      drafts_of-source_count host (header_of host payload header)
        (group_rows host (numbered 1 rows) []) ds h in
    (
      e₁,
      omega (arith, e₂, group_rows-grouped_count host (numbered 1 rows) [], numbered-length 1 rows),
    )
