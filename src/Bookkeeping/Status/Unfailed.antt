-- ===== src/Bookkeeping/Status/Unfailed.antt =====
-- What a migration makes of failed imports.
use invoice_hub.Bookkeeping.Status.Migrated.{
  IsMigrated, apply_voucher_status_migration-IsMigrated, apply_voucher_status_migration-migrate,
}
use invoice_hub.Domain.{import_unknown}
use invoice_hub.Bookkeeping.Result.{
  not_found, ok, ok-injective, or_raise-eq-ok, >>=-eq-ok, migration_conflict, raise_if-eq-ok,
}
use invoice_hub.Domain.{VoucherStatusItem, VoucherState, import_failed, state_eq}
use invoice_hub.Bookkeeping.Status.Migrate.{
  Migration, migrated_items, migrated_item, migration_of, MigrationArgs, MigrationHost, StatusFile,
  apply_voucher_status_migration, migrate, checked_backup, preview_core, migrated_state,
}
use invoice_hub.Bookkeeping.Status.Store.{Host, VoucherStatusStore, needs_migration}
use invoice_hub.Prelude.Dict.{Dict, lookup, insert}
use invoice_hub.Prelude.{
  List, String, [], ap, if◌then◌else◌, inl, inr, str_eq, sym, ◌∙◌, ◌∷◌, ◌≡◌, Bool, Option, false,
  some, true, ◌⊎◌, is_empty, not, refl, subst, All, none,
}

-- The items that a migration builds: none is a failed import.
migrated_state-unfailed : (s : VoucherState) → state_eq (migrated_state s) import_failed ≡ false
unfolding migrated_state
migrated_state-unfailed import_failed = refl
migrated_state-unfailed _ = refl

All-choice :
    (b : Bool) (xs ys : Dict VoucherStatusItem) (P : String × VoucherStatusItem → Type 0)
    → All P xs
    → All P ys
    → All P (if b then xs else ys)
All-choice true xs ys P h k = h
All-choice false xs ys P h k = k

insert-All :
    (P : VoucherStatusItem → Type 0) (k : String) (v : VoucherStatusItem)
    (d : Dict VoucherStatusItem)
    → P v
    → All (λ e. P e.1) d
    → All (λ e. P e.1) (insert k v d)
unfolding insert
insert-All P k v [] p ps = (p, tt)
insert-All P k v ((j, w) ∷ d) p (q, qs) =
    All-choice (str_eq j k) _ _ (λ e. P e.1) (p, qs) (q, insert-All P k v d p qs)

migrated_items-unfailed :
    (host : Host) (source : String) (old : Dict VoucherStatusItem) (ms : List Migration)
    (items after : Dict VoucherStatusItem)
    → migrated_items host source old ms items ≡ ok after
    → All (λ e. state_eq e.1.status import_failed ≡ false) items
    → All (λ e. state_eq e.1.status import_failed ≡ false) after
unfolding migrated_items migrated_item
migrated_items-unfailed host source old [] items after h a =
    subst (All (λ e. state_eq e.1.status import_failed ≡ false)) (ok-injective h) a
migrated_items-unfailed host source old (m ∷ ms) items after h a =
    let (x, hx, h₁) = or_raise-eq-ok (lookup m.legacy_key old) (not_found m.legacy_key) _ h in
    migrated_items-unfailed host source old ms _ after h₁ (
      insert-All (λ v. state_eq v.status import_failed ≡ false) m.posting_key _ items
        (migrated_state-unfailed x.status) a)

-- The state that an item is carried over with.
abbrev pub IsCarried : VoucherState → VoucherState → Type 0
IsCarried old new =
    (old ≡ import_failed) × (new ≡ import_unknown)
    ⊎ (state_eq old import_failed ≡ false) × (new ≡ old)

migrated_state-IsCarried : (s : VoucherState) → IsCarried s (migrated_state s)
unfolding migrated_state
migrated_state-IsCarried import_failed = inl (refl, refl)
migrated_state-IsCarried _ = inr (refl, refl)

-- The item that was under an old key: where it is now, and in which state.
abbrev pub IsCarriedOver : Host → VoucherStatusStore → String → VoucherStatusItem → Type 0
IsCarriedOver host after key item =
    (moved : VoucherStatusItem) × (lookup (migration_of host after.company_id key item).posting_key
        after.items
      ≡ some moved)
    × IsCarried item.status moved.status

IsMigrated-IsCarriedOver :
    (host : MigrationHost) (args : MigrationArgs) (key : String) (item : VoucherStatusItem)
    (after : VoucherStatusStore)
    → IsMigrated host args key item after
    → IsCarriedOver host.base after key item
unfolding migrated_item
IsMigrated-IsCarriedOver host args key item after m = (
  migrated_item host.base args.source_sha256 m.migration item,
  ap (λ x. lookup x.posting_key after.items) (sym m.made) ∙ m.kept,
  migrated_state-IsCarried item.status,
)

-- Where the old store has an item under a key, it is carried over.
abbrev pub IsCarriedFrom : Host → VoucherStatusStore → VoucherStatusStore → String → Type 0
IsCarriedFrom host current after key =
    (lookup key current.items ≡ none)
    ⊎ (item : VoucherStatusItem) × (lookup key current.items ≡ some item)
      × IsCarriedOver host after key item

Option-cases {ℓ} : {A : Type ℓ} (o : Option A) → (o ≡ none) ⊎ ((x : A) × (o ≡ some x))
Option-cases none = inl refl
Option-cases (some x) = inr (x, refl)

-- A migrated store has version 2, holds no batch, and no voucher in it counts as a failed import.
-- Each voucher of the old store is in it under its posting key: in the state `import_unknown` where
-- its import had failed, else in the state that it had.
pub apply_voucher_status_migration-unfailed :
    (host : MigrationHost) (file : StatusFile) (args : MigrationArgs)
    (current after : VoucherStatusStore)
    → apply_voucher_status_migration host file args current ≡ ok after
    → needs_migration current ≡ true
    → All (λ e. state_eq e.1.status import_failed ≡ false) after.items
      × (needs_migration after ≡ false)
      × (after.batches ≡ [])
      × ((key : String) → IsCarriedFrom host.base current after key)
unfolding migrate
apply_voucher_status_migration-unfailed host file args current after h n =
    let core = preview_core host file args.company_id current in
    let h₁ = apply_voucher_status_migration-migrate host file args current after h n in
    let (_, h₂) = raise_if-eq-ok (not (is_empty core.conflicts)) migration_conflict _ h₁ in
    let (_, _, h₃) = >>=-eq-ok (checked_backup file args.source_sha256) _ h₂ in
    let (items, hi, h₄) =
      >>=-eq-ok (migrated_items host.base args.source_sha256 current.items core.mappings []) _ h₃ in
    let e = ok-injective h₄ in
    (
      subst (λ s. All (λ e. state_eq e.1.status import_failed ≡ false) s.items) e
          (migrated_items-unfailed host.base args.source_sha256 current.items core.mappings [] items
            hi tt),
      subst (λ s. needs_migration s ≡ false) e refl,
      subst (λ s. s.batches ≡ []) e refl,
      λ key. elim (Option-cases (lookup key current.items)) [
        | inl missing ↦ inl missing
        | inr (item, found) ↦ inr (
          item,
          found,
          IsMigrated-IsCarriedOver host args key item after (
              apply_voucher_status_migration-IsMigrated host file args current after key item h n
                found),
        )
      ],
    )
