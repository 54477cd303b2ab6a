-- ===== src/Bookkeeping/Status/Migrated.antt =====
-- What a migration keeps: no item is lost or overwritten.
use invoice_hub.Bookkeeping.Result.{
  not_found, ok, ok-injective, or_raise-eq-ok, >>=-eq-ok, migration_conflict, proposal_conflict,
  raise_if-eq-ok, source_changed,
}
use invoice_hub.Domain.{VoucherStatusItem}
use invoice_hub.Bookkeeping.Status.Migrate.{
  Migration, by_posting_key, conflicts_of, keys_or_none, migrated_items, put_by_key, migrated_item,
  migration_of, migrations, sorted_items, MigrationArgs, MigrationHost, StatusFile,
  apply_voucher_status_migration, migrate, preview_voucher_status_migration, checked_backup,
  idle_preview, migrate_if, preview_core, required_preview,
}
use invoice_hub.Bookkeeping.Status.Store.{Host, VoucherStatusStore, needs_migration, revision_guard}
use invoice_hub.Prelude.Dict.{Dict, lookup, insert, lookup-insert, lookup-insert_self}
use invoice_hub.Prelude.{
  Any, Bool-cases, List, String, [], ap, arith, if◌then◌else◌, inl, inr, length, ltb, str_eq, suc,
  sym, ℕ, ◌+◌, ◌∙◌, ◌∷◌, ◌≡◌, ◌≤◌, Bool, Option, at_head, false, in_tail, length-append, some,
  some-injective, str_eq→eq, text_lt, true, ◌++◌, ◌⊎◌, eq_refl, is_empty, not, refl, subst,
  true_false,
}

-- How many mappings have a posting key.
unfoldable pub key_count : String → List Migration → ℕ
key_count key [] = 0
key_count key (m ∷ ms) =
    let rest = key_count key ms in if str_eq m.posting_key key then suc rest else rest

-- A mapping adds its old key to the group of its posting key.
one_more :
    (key : String) (m : Migration) (ms : List Migration) (groups : Dict (List String))
    → (str_eq m.posting_key key ≡ true) ⊎ (str_eq m.posting_key key ≡ false)
    → length (
          keys_or_none (
            lookup key (
              insert m.posting_key
                (keys_or_none (lookup m.posting_key groups) ++ m.legacy_key ∷ [])
                groups)))
        + key_count key ms
      ≡ length (keys_or_none (lookup key groups)) + key_count key (m ∷ ms)
unfolding key_count
one_more key m ms groups (inl e) =
    rw
      (lookup-insert key m.posting_key
        (keys_or_none (lookup m.posting_key groups) ++ m.legacy_key ∷ []) groups)
      (rw (e, str_eq→eq m.posting_key key e)
        (omega (arith, length-append (keys_or_none (lookup key groups)) (m.legacy_key ∷ []))))
one_more key m ms groups (inr e) =
    rw
      (lookup-insert key m.posting_key
        (keys_or_none (lookup m.posting_key groups) ++ m.legacy_key ∷ []) groups)
      (rw e)

by_posting_key-key_count :
    (key : String) (ms : List Migration) (groups : Dict (List String))
    → length (keys_or_none (lookup key (by_posting_key ms groups)))
      ≡ length (keys_or_none (lookup key groups)) + key_count key ms
unfolding by_posting_key key_count
by_posting_key-key_count key [] groups = omega arith
by_posting_key-key_count key (m ∷ ms) groups =
    by_posting_key-key_count key ms _
    ∙ one_more key m ms groups (Bool-cases (str_eq m.posting_key key))

small_choice :
    (b : Bool) (l : List String) (o : Option (List String))
    → length l ≤ 1
    → length (keys_or_none o) ≤ 1
    → length (keys_or_none (if b then some l else o)) ≤ 1
small_choice true l o h k = h
small_choice false l o h k = k

at_most_one : (n : ℕ) → ltb 1 n ≡ false → n ≤ 1
at_most_one n h = ground arith

cons_is_nil : (x : String × List String) (xs : Dict (List String)) {A : Type 0} → x ∷ xs ≡ [] → A
cons_is_nil x xs h = cc

no_conflicts :
    (key : String) (groups : Dict (List String))
    → conflicts_of groups ≡ []
    → length (keys_or_none (lookup key groups)) ≤ 1
unfolding conflicts_of lookup
no_conflicts key [] h = omega arith
no_conflicts key ((j, l) ∷ groups) h = elim (Bool-cases (ltb 1 (length l))) [
  | inl e ↦
      cons_is_nil (j, l) (conflicts_of groups)
        (ap (λ b. if b then (j, l) ∷ conflicts_of groups else conflicts_of groups) (sym e) ∙ h)
  | inr e ↦ small_choice (str_eq j key) l (lookup key groups) (at_most_one (length l) e) (
      no_conflicts key groups
        (ap (λ b. if b then (j, l) ∷ conflicts_of groups else conflicts_of groups) (sym e) ∙ h))
]

Any-choice :
    (b : Bool) {xs ys : Dict VoucherStatusItem} (P : String × VoucherStatusItem → Type 0)
    → Any P xs
    → Any P ys
    → Any P (if b then xs else ys)
Any-choice true P h k = h
Any-choice false P h k = k

-- An item that is in a dictionary is among its sorted items.
Any-put_by_key :
    (k : String) (item : VoucherStatusItem) (items : Dict VoucherStatusItem)
    (P : String × VoucherStatusItem → Type 0)
    → Any P ((k, item) ∷ items)
    → Any P (put_by_key k item items)
Any-put_by_key k item [] P a = a
Any-put_by_key k item ((j, x) ∷ items) P (at_head p) =
    Any-choice (text_lt j k) P (in_tail (Any-put_by_key k item items P (at_head p))) (at_head p)
Any-put_by_key k item ((j, x) ∷ items) P (in_tail (at_head p)) =
    Any-choice (text_lt j k) P (at_head p) (in_tail (at_head p))
Any-put_by_key k item ((j, x) ∷ items) P (in_tail (in_tail q)) =
    Any-choice (text_lt j k) P (in_tail (Any-put_by_key k item items P (in_tail q)))
      (in_tail (in_tail q))

Any-sorted_items :
    (items : Dict VoucherStatusItem) (P : String × VoucherStatusItem → Type 0)
    → Any P items
    → Any P (sorted_items items)
unfolding sorted_items
Any-sorted_items [] P a = a
Any-sorted_items ((k, item) ∷ items) P (at_head p) =
    Any-put_by_key k item (sorted_items items) P (at_head p)
Any-sorted_items ((k, item) ∷ items) P (in_tail a) =
    Any-put_by_key k item (sorted_items items) P (in_tail (Any-sorted_items items P a))

abbrev entry : String → VoucherStatusItem → String × VoucherStatusItem
entry k item = (k, item)

Any-lookup :
    (key : String) (item : VoucherStatusItem) (items : Dict VoucherStatusItem)
    → lookup key items ≡ some item
    → Any (λ e. e ≡ (key, item)) items
unfolding lookup
Any-lookup key item [] h = cc
Any-lookup key item ((j, x) ∷ items) h = elim (Bool-cases (str_eq j key)) [
  | inl e ↦ at_head (
      ap (λ k. entry k x) (str_eq→eq j key e)
      ∙ ap (entry key)
          (some-injective (ap (λ b. if b then some x else lookup key items) (sym e) ∙ h)))
  | inr e ↦
      in_tail
        (Any-lookup key item items (ap (λ b. if b then some x else lookup key items) (sym e) ∙ h))
]

Any-migrations :
    (host : Host) (company_id key : String) (item : VoucherStatusItem)
    (items : Dict VoucherStatusItem)
    → Any (λ e. e ≡ (key, item)) items
    → Any (λ m. m ≡ migration_of host company_id key item) (migrations host company_id items)
unfolding migrations
Any-migrations host company_id key item [] a = elim a [ ]
Any-migrations host company_id key item ((k, x) ∷ items) (at_head p) =
    at_head (ap (λ e. migration_of host company_id e.0 e.1) p)
Any-migrations host company_id key item ((k, x) ∷ items) (in_tail a) =
    in_tail (Any-migrations host company_id key item items a)

suc_zero : (n : ℕ) → suc n ≡ 0 → ⊥
suc_zero n h = omega (arith, h)

suc_not_zero : (n : ℕ) {A : Type 0} → suc n ≡ 0 → A
suc_not_zero n h = elim (suc_zero n h) [ ]

migrated_items-other :
    (host : Host) (source key : String) (old : Dict VoucherStatusItem) (ms : List Migration)
    (items after : Dict VoucherStatusItem)
    → migrated_items host source old ms items ≡ ok after
    → key_count key ms ≡ 0
    → lookup key after ≡ lookup key items
unfolding migrated_items key_count
migrated_items-other host source key old [] items after h c = ap (lookup key) (sym (ok-injective h))
migrated_items-other host source key old (m ∷ ms) items after h c =
    let (x, hx, h₁) = or_raise-eq-ok (lookup m.legacy_key old) (not_found m.legacy_key) _ h in
    elim (Bool-cases (str_eq m.posting_key key)) [
      | inl e ↦
          suc_not_zero (key_count key ms)
            (ap (λ b. if b then suc (key_count key ms) else key_count key ms) (sym e) ∙ c)
      | inr e ↦
          migrated_items-other host source key old ms _ after h₁
            (ap (λ b. if b then suc (key_count key ms) else key_count key ms) (sym e) ∙ c)
          ∙ (lookup-insert key m.posting_key (migrated_item host source m x) items
              ∙ ap (λ b. if b then some (migrated_item host source m x) else lookup key items) e)
    ]

count_rest : (b : Bool) (n : ℕ) → (if b then suc n else n) ≤ 1 → n ≤ 1
count_rest b n h = ground arith

count_none : (n : ℕ) → suc n ≤ 1 → n ≡ 0
count_none n h = omega (arith, h)

migrated_items-head :
    (host : Host) (source : String) (old : Dict VoucherStatusItem) (m : Migration)
    (ms : List Migration) (items after : Dict VoucherStatusItem) (item : VoucherStatusItem)
    → migrated_items host source old (m ∷ ms) items ≡ ok after
    → key_count m.posting_key (m ∷ ms) ≤ 1
    → lookup m.legacy_key old ≡ some item
    → lookup m.posting_key after ≡ some (migrated_item host source m item)
unfolding migrated_items key_count
migrated_items-head host source old m ms items after item h c l =
    let (x, hx, h₁) = or_raise-eq-ok (lookup m.legacy_key old) (not_found m.legacy_key) _ h in
    let n = key_count m.posting_key ms in
    let alone =
      count_none n (subst (λ b. (if b then suc n else n) ≤ 1) (eq_refl m.posting_key) c) in
    migrated_items-other host source m.posting_key old ms _ after h₁ alone
    ∙ (lookup-insert_self m.posting_key (migrated_item host source m x) items
        ∙ ap (λ o. some (migrated_item host source m o)) (some-injective (sym hx ∙ l)))

-- A mapping whose posting key no other has: its item is in the new dictionary.
migrated_items-Any :
    (host : Host) (source : String) (old : Dict VoucherStatusItem) (ms : List Migration)
    (items after : Dict VoucherStatusItem) (m : Migration) (item : VoucherStatusItem)
    → migrated_items host source old ms items ≡ ok after
    → Any (λ x. x ≡ m) ms
    → key_count m.posting_key ms ≤ 1
    → lookup m.legacy_key old ≡ some item
    → lookup m.posting_key after ≡ some (migrated_item host source m item)
unfolding migrated_items key_count
migrated_items-Any host source old [] items after m item h a c l = elim a [ ]
migrated_items-Any host source old (x ∷ ms) items after m item h (at_head p) c l =
    migrated_items-head host source old m ms items after item
      (subst (λ y. migrated_items host source old (y ∷ ms) items ≡ ok after) p h)
      (subst (λ y. key_count m.posting_key (y ∷ ms) ≤ 1) p c) l
migrated_items-Any host source old (x ∷ ms) items after m item h (in_tail a) c l =
    let (o, ho, h₁) = or_raise-eq-ok (lookup x.legacy_key old) (not_found x.legacy_key) _ h in
    migrated_items-Any host source old ms _ after m item h₁ a
      (count_rest (str_eq x.posting_key m.posting_key) (key_count m.posting_key ms) c) l

key_count_small :
    (key : String) (ms : List Migration)
    → conflicts_of (by_posting_key ms []) ≡ []
    → key_count key ms ≤ 1
unfolding lookup
key_count_small key ms h =
    omega (arith, no_conflicts key (by_posting_key ms []) h, by_posting_key-key_count key ms [])

-- A call that migrates runs `migrate` on its own preview.
pub apply_voucher_status_migration-migrate :
    (host : MigrationHost) (file : StatusFile) (args : MigrationArgs)
    (current after : VoucherStatusStore)
    → apply_voucher_status_migration host file args current ≡ ok after
    → needs_migration current ≡ true
    → migrate host file args (preview_core host file args.company_id current) current ≡ ok after
unfolding apply_voucher_status_migration preview_voucher_status_migration
apply_voucher_status_migration-migrate host file args current after h n =
    let core = preview_core host file args.company_id current in
    let (_, h₁) = raise_if-eq-ok _ source_changed _ h in
    let (_, _, h₂) = >>=-eq-ok (revision_guard args.expected_revision current) _ h₁ in
    let (_, h₃) = raise_if-eq-ok _ (proposal_conflict args.preview_hash _) _ h₂ in
    subst (λ p. migrate_if host file args p current p.migration_required ≡ ok after)
      (ap (λ b. if b then required_preview host core else idle_preview file current) n) h₃

-- What a migration leaves of an old item.
pub record IsMigrated (host : MigrationHost) (args : MigrationArgs) (key : String)
    (item : VoucherStatusItem) (after : VoucherStatusStore) : Type 0 where
  pub migration : Migration
  pub made : migration ≡ migration_of host.base after.company_id key item
  pub kept :
      lookup migration.posting_key after.items
      ≡ some (migrated_item host.base args.source_sha256 migration item)

is_empty_conflicts : (d : Dict (List String)) → not (is_empty d) ≡ false → d ≡ []
is_empty_conflicts [] h = refl
is_empty_conflicts (x ∷ d) h = true_false h

-- A migration that returns keeps each item of a store of version 1: the new store has it under its
-- posting key, in the migrated state, with its old key recorded.
pub apply_voucher_status_migration-IsMigrated :
    (host : MigrationHost) (file : StatusFile) (args : MigrationArgs)
    (current after : VoucherStatusStore) (key : String) (item : VoucherStatusItem)
    → apply_voucher_status_migration host file args current ≡ ok after
    → needs_migration current ≡ true
    → lookup key current.items ≡ some item
    → IsMigrated host args key item after
unfolding migrate preview_core migration_of
apply_voucher_status_migration-IsMigrated host file args current after key item h n l =
    let core = preview_core host file args.company_id current in
    let h₄ = apply_voucher_status_migration-migrate host file args current after h n in
    let (clear, h₅) = raise_if-eq-ok (not (is_empty core.conflicts)) migration_conflict _ h₄ in
    let (_, _, h₆) = >>=-eq-ok (checked_backup file args.source_sha256) _ h₅ in
    let (items, hi, h₇) =
      >>=-eq-ok (migrated_items host.base args.source_sha256 current.items core.mappings []) _ h₆ in
    let m = migration_of host.base core.company_id key item in
    let kept =
      migrated_items-Any host.base args.source_sha256 current.items core.mappings [] items m item hi
        (Any-migrations host.base core.company_id key item (sorted_items current.items)
          (Any-sorted_items current.items _ (Any-lookup key item current.items l)))
        (key_count_small m.posting_key core.mappings (is_empty_conflicts _ clear)) l in
    record {
      migration = m;
      made = ap (λ c. migration_of host.base c key item) (ap (λ s. s.company_id) (ok-injective h₇));
      kept = ap (λ s. lookup m.posting_key s.items) (sym (ok-injective h₇)) ∙ kept;
    }
