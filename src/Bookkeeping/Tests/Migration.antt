-- ===== src/Bookkeeping/Tests/Migration.antt =====
-- The theorems on the migration, at a store of two vouchers.
use invoice_hub.Bookkeeping.Status.Store.{needs_migration}
use invoice_hub.Prelude.Dict.{lookup}
use invoice_hub.Bookkeeping.Tests.Data.{
  is_ok, item_in, ok_value, store_in, test_draft, test_host, value_of,
}
use invoice_hub.Bookkeeping.Status.{VoucherStatusStore}
use invoice_hub.Domain.{VoucherStatusItem, import_failed, imported, prepared, state_eq}
use invoice_hub.Bookkeeping.Result.{Result}
use invoice_hub.Bookkeeping.Status.Migrate.{
  MigrationArgs, MigrationHost, StatusFile, apply_voucher_status_migration,
}
use invoice_hub.Bookkeeping.Status.Migrated.{IsMigrated, apply_voucher_status_migration-IsMigrated}
use invoice_hub.Bookkeeping.Status.Unfailed.{IsCarriedFrom, apply_voucher_status_migration-unfailed}
use invoice_hub.Prelude.{All, [], false, none, refl, some, true, ◌∷◌, ◌≡◌, String}

abbrev test_migration_host : MigrationHost
test_migration_host = record {
  base = test_host;
  migration_company_id = λ s. s;
  preview_sha256 = λ core. "preview";
}

abbrev test_file : StatusFile
test_file = record { path_exists = true; file_sha256 = "sha"; backup = none; copied = "sha" }

abbrev test_migration_args : MigrationArgs
test_migration_args = record {
  source_sha256 = "sha";
  company_id = "";
  preview_hash = "preview";
  expected_revision = some 5;
  ledger_environment = "";
  ledger_identity_sha256 = "";
  ledger_profile_sha256 = "";
}

abbrev failed_item : VoucherStatusItem
failed_item = record (item_in import_failed) {
  snapshot = record test_draft { source_invoice_nos = "n2" ∷ [] };
}

-- `v0` belongs to the first invoice, `v1` to the second.
abbrev old_store : VoucherStatusStore
old_store = record (store_in imported prepared) {
  version = 1;
  items = ("v1", failed_item) ∷ ("v0", item_in imported) ∷ [];
  batches = [];
}

abbrev migrated : Result VoucherStatusStore
migrated =
    apply_voucher_status_migration test_migration_host test_file test_migration_args old_store

abbrev migrated_value : VoucherStatusStore
migrated_value = value_of migrated old_store

migrated_ok : is_ok migrated ≡ true
unfolding apply_voucher_status_migration invoice_hub.Bookkeeping.Status.Migrate.source_hash_of
    invoice_hub.Bookkeeping.Status.Migrate.preview_voucher_status_migration
    invoice_hub.Bookkeeping.Status.Migrate.migrate
    invoice_hub.Bookkeeping.Status.Migrate.preview_core
    invoice_hub.Bookkeeping.Status.Migrate.conflicts_of
    invoice_hub.Bookkeeping.Status.Migrate.by_posting_key
    invoice_hub.Bookkeeping.Status.Migrate.migrations
    invoice_hub.Bookkeeping.Status.Migrate.sorted_items invoice_hub.Prelude.Dict.insert
    invoice_hub.Bookkeeping.Status.Migrate.migration_of
    invoice_hub.Bookkeeping.Status.Migrate.rekeyed invoice_hub.Bookkeeping.Status.posting_key
    invoice_hub.Prelude.Text.strip invoice_hub.Bookkeeping.Status.Migrate.migration_anchor
    invoice_hub.Bookkeeping.Status.Migrate.stripped lookup
    invoice_hub.Bookkeeping.Status.Hash.joined_key
    invoice_hub.Bookkeeping.Status.proposal_revision_hash
    invoice_hub.Bookkeeping.Status.stable_payload invoice_hub.Bookkeeping.Status.Merge.dedup_from
    invoice_hub.Bookkeeping.Status.Migrate.checked_backup
    invoice_hub.Bookkeeping.Status.Migrate.first_given
    invoice_hub.Bookkeeping.Status.Migrate.migrated_item
    invoice_hub.Bookkeeping.Status.Migrate.migrated_items
    invoice_hub.Bookkeeping.Status.Migrate.migrated_state invoice_hub.Prelude.Text.lstrip
    invoice_hub.Prelude.Text.rstrip invoice_hub.Prelude.Text.take_text
migrated_ok = refl

old_version : needs_migration old_store ≡ true
old_version = refl

failed_there : lookup "v1" old_store.items ≡ some failed_item
unfolding lookup
failed_there = refl

apply_voucher_status_migration-IsMigrated_example :
    IsMigrated test_migration_host test_migration_args "v1" failed_item migrated_value
apply_voucher_status_migration-IsMigrated_example =
    apply_voucher_status_migration-IsMigrated test_migration_host test_file test_migration_args
      old_store migrated_value "v1" failed_item (ok_value migrated old_store migrated_ok)
      old_version failed_there

apply_voucher_status_migration-unfailed_example :
    All (λ e. state_eq e.1.status import_failed ≡ false) migrated_value.items
    × (needs_migration migrated_value ≡ false)
    × (migrated_value.batches ≡ [])
    × ((key : String) → IsCarriedFrom test_migration_host.base old_store migrated_value key)
apply_voucher_status_migration-unfailed_example =
    apply_voucher_status_migration-unfailed test_migration_host test_file test_migration_args
      old_store migrated_value (ok_value migrated old_store migrated_ok) old_version
