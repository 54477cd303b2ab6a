-- ===== src/Bookkeeping/Vouchers/Partition.antt =====
-- The groups of rows: which rows a group holds, and that no row is lost.
use invoice_hub.Bookkeeping.Vouchers.Group.{add_to_group, group_key, group_rows, old_rows}
use invoice_hub.Bookkeeping.Vouchers.Facts.{VoucherHost}
use invoice_hub.Bookkeeping.Vouchers.Row.{Row}
use invoice_hub.Prelude.Dict.{Dict, lookup, lookup-insert}
use invoice_hub.Prelude.{
  Bool-cases, List, Option, String, [], ap, if◌then◌else◌, inl, inr, none, refl, some, str_eq, sym,
  ℕ, ◌++◌, ◌∙◌, ◌∷◌, ◌≡◌, false, str_eq→eq, true, ◌⊎◌,
}

-- The rows of a key, in their order.
unfoldable pub rows_of_key : VoucherHost → String → List (ℕ × Row) → List (ℕ × Row)
rows_of_key host key [] = []
rows_of_key host key ((index, row) ∷ rows) =
    let rest = rows_of_key host key rows in
    if str_eq (group_key host index row) key then (index, row) ∷ rest else rest

abbrev pub none_if_empty : List (ℕ × Row) → Option (List (ℕ × Row))
none_if_empty [] = none
none_if_empty (e ∷ es) = some (e ∷ es)

append_nil : (xs : List (ℕ × Row)) → xs ++ [] ≡ xs
append_nil [] = refl
append_nil (x ∷ xs) = ap (λ l. x ∷ l) (append_nil xs)

append_assoc :
    (xs : List (ℕ × Row)) (e : ℕ × Row) (ys : List (ℕ × Row)) → (xs ++ e ∷ []) ++ ys ≡ xs ++ e ∷ ys
append_assoc [] e ys = refl
append_assoc (x ∷ xs) e ys = ap (λ l. x ∷ l) (append_assoc xs e ys)

some_of_append :
    (xs : List (ℕ × Row)) (e : ℕ × Row) → some (xs ++ e ∷ []) ≡ none_if_empty (xs ++ e ∷ [])
some_of_append [] e = refl
some_of_append (x ∷ xs) e = refl

-- The groups so far hold no empty group.
abbrev NoneEmpty : Dict (List (ℕ × Row)) → Type 0
NoneEmpty groups = (key : String) → lookup key groups ≡ none_if_empty (old_rows (lookup key groups))

lookup-add_to_group :
    (key k : String) (e : ℕ × Row) (groups : Dict (List (ℕ × Row)))
    → lookup key (add_to_group k e groups)
      ≡ (if str_eq k key then some (old_rows (lookup k groups) ++ e ∷ []) else lookup key groups)
unfolding add_to_group
lookup-add_to_group key k e groups = lookup-insert key k _ groups

add_to_group-NoneEmpty :
    (k : String) (e : ℕ × Row) (groups : Dict (List (ℕ × Row)))
    → NoneEmpty groups
    → NoneEmpty (add_to_group k e groups)
add_to_group-NoneEmpty k e groups h key = elim (Bool-cases (str_eq k key)) [
  | inl e₁ ↦ rw (lookup-add_to_group key k e groups) (rw e₁ (some_of_append _ e))
  | inr e₁ ↦ rw (lookup-add_to_group key k e groups) (rw e₁ (h key))
]

-- The first row goes to its group, wherever it is looked for.
moved_rows :
    (host : VoucherHost) (key : String) (index : ℕ) (row : Row) (rows : List (ℕ × Row))
    (groups : Dict (List (ℕ × Row)))
    → (str_eq (group_key host index row) key ≡ true)
      ⊎ (str_eq (group_key host index row) key ≡ false)
    → old_rows (lookup key (add_to_group (group_key host index row) (index, row) groups))
        ++ rows_of_key host key rows
      ≡ old_rows (lookup key groups) ++ rows_of_key host key ((index, row) ∷ rows)
unfolding rows_of_key
moved_rows host key index row rows groups (inl e) =
    let k = group_key host index row in
    rw (lookup-add_to_group key k (index, row) groups)
      (rw (e, str_eq→eq k key e) (append_assoc (old_rows (lookup key groups)) (index, row) _))
moved_rows host key index row rows groups (inr e) =
    let k = group_key host index row in rw (lookup-add_to_group key k (index, row) groups) (rw e)

group_rows-general :
    (host : VoucherHost) (rows : List (ℕ × Row)) (groups : Dict (List (ℕ × Row)))
    → NoneEmpty groups
    → (key : String)
    → lookup key (group_rows host rows groups)
      ≡ none_if_empty (old_rows (lookup key groups) ++ rows_of_key host key rows)
unfolding group_rows rows_of_key
group_rows-general host [] groups h key =
    h key ∙ ap none_if_empty (sym (append_nil (old_rows (lookup key groups))))
group_rows-general host ((index, row) ∷ rows) groups h key =
    let k = group_key host index row in
    let later =
      group_rows-general host rows (add_to_group k (index, row) groups)
        (add_to_group-NoneEmpty k (index, row) groups h) key in
    later ∙ ap none_if_empty (moved_rows host key index row rows groups (Bool-cases (str_eq k key)))

-- The group of a key holds the rows that have it, in their order, and there is no other group.
pub group_rows-lookup :
    (host : VoucherHost) (rows : List (ℕ × Row)) (key : String)
    → lookup key (group_rows host rows []) ≡ none_if_empty (rows_of_key host key rows)
unfolding lookup
group_rows-lookup host rows key = group_rows-general host rows [] (λ k. refl) key
