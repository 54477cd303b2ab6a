-- ===== src/Bookkeeping/Status/Migrate.antt =====
-- `preview_voucher_status_migration` and `apply_voucher_status_migration`: a store of version 1
-- becomes one of version 2, under the write lock of its directory. `current` is the store as
-- `load_voucher_status` reads it.
use invoice_hub.Bookkeeping.Status.Hash.{posting_key, proposal_revision_hash}
use invoice_hub.Prelude.Text.{is_blank, is_empty_text, or_else, strip, take_text}
use invoice_hub.Bookkeeping.Status.Merge.{dedup_from}
use invoice_hub.Bookkeeping.Status.Transition.{audit_entry}
use invoice_hub.Domain.{
  VoucherDraft, VoucherState, VoucherStatusItem, fields, import_failed, import_unknown,
}
use invoice_hub.Bookkeeping.Result.{
  Result, backup_corrupt, backup_differs, migration_conflict, not_found, ok, or_raise,
  proposal_conflict, raise_if, source_changed, ◌>>=◌, ◌>>◌,
}
use invoice_hub.Bookkeeping.Status.Store.{
  Host, VoucherStatusStore, needs_migration, revision_guard, schema_version,
}
use invoice_hub.Prelude.Dict.{Dict, insert, lookup, values}
use invoice_hub.Prelude.{
  Bool, List, Option, String, [], false, if◌then◌else◌, is_empty, length, ltb, none, not, some,
  str_eq, text_lt, true, ℕ, ◌&&◌, ◌++◌, ◌+◌, ◌||◌, ◌∷◌,
}

-- The status file and the backup beside it: their hashes, and the hash of the backup that a copy
-- makes.
pub record StatusFile : Type 0 where
  pub path_exists : Bool
  pub file_sha256 : String
  pub backup : Option String
  pub copied : String

-- One old item under its new key.
pub record Migration : Type 0 where
  pub legacy_key : String
  pub posting_key : String
  pub status : VoucherState
  pub key_strength : String
  pub proposal_revision_hash : String
  pub snapshot : VoucherDraft

-- What a preview hashes.
pub record PreviewCore : Type 0 where
  pub source_sha256 : String
  pub source_revision : ℕ
  pub company_id : String
  pub mappings : List Migration
  pub conflicts : Dict (List String)

pub record Preview : Type 0 where
  pub migration_required : Bool
  pub core : PreviewCore
  pub preview_hash : String

-- From outside: `uuid5` of a file's hash, and `canonical_sha256` of a preview.
pub record MigrationHost : Type 0 where
  pub base : Host
  pub migration_company_id : String → String
  pub preview_sha256 : PreviewCore → String

-- `file_sha256(path) if path.exists() else ""`
unfoldable pub source_hash_of : StatusFile → String
source_hash_of file = if file.path_exists then file.file_sha256 else ""

-- `[value.strip() for value in values if value.strip()]`
unfoldable pub stripped : List String → List String
stripped [] = []
stripped (v ∷ vs) = let rest = stripped vs in if is_blank v then rest else strip v ∷ rest

-- `next((value for value in values if value), default)`
unfoldable pub first_given : List String → String → String
first_given [] default = default
first_given (v ∷ vs) default =
    let later = first_given vs default in if is_empty_text v then later else v

abbrev pub anchor_or : List String → String → String
anchor_or [] otherwise = otherwise
anchor_or (invoice ∷ _) otherwise = invoice

unfoldable pub migration_anchor : String → VoucherDraft → String
migration_anchor legacy_key d =
    anchor_or (stripped d.source_invoice_nos) (first_given (values d.source_file_hashes) legacy_key)

-- The snapshot under its new key, without its hash.
unfoldable pub rekeyed : Host → String → String → VoucherDraft → VoucherDraft
rekeyed host company_id legacy_key d =
    let event_type = or_else d.event_type "purchase_recognition" in
    let anchor = migration_anchor legacy_key d in
    let key = posting_key host company_id event_type anchor in
    record d {
      voucher_key = key;
      posting_key = key;
      legacy_key = legacy_key;
      company_id = company_id;
      event_type = event_type;
      anchor_business_key = anchor;
      key_strength = if is_empty (stripped d.source_invoice_nos) then "weak" else "strong";
      period = or_else d.period (take_text 7 d.voucher_date);
    }

-- An entry of `mappings`.
unfoldable pub migration_of : Host → String → String → VoucherStatusItem → Migration
migration_of host company_id legacy_key item =
    let d = rekeyed host company_id legacy_key item.snapshot in
    let hash = proposal_revision_hash host d in
    record {
      legacy_key = legacy_key;
      posting_key = d.posting_key;
      status = item.status;
      key_strength = d.key_strength;
      proposal_revision_hash = hash;
      snapshot = record d { proposal_revision_hash = hash };
    }

-- `sorted(items.items())`: the keys are distinct.
abbrev pub put_by_key : String → VoucherStatusItem → Dict VoucherStatusItem → Dict VoucherStatusItem
put_by_key k item [] = (k, item) ∷ []
put_by_key k item ((j, present) ∷ items) =
    let later = (j, present) ∷ put_by_key k item items in
    if text_lt j k then later else (k, item) ∷ (j, present) ∷ items

unfoldable pub sorted_items : Dict VoucherStatusItem → Dict VoucherStatusItem
sorted_items [] = []
sorted_items ((k, item) ∷ items) = put_by_key k item (sorted_items items)

unfoldable pub migrations : Host → String → Dict VoucherStatusItem → List Migration
migrations host company_id [] = []
migrations host company_id ((k, item) ∷ items) =
    migration_of host company_id k item ∷ migrations host company_id items

abbrev pub keys_or_none : Option (List String) → List String
keys_or_none none = []
keys_or_none (some old) = old

-- `by_posting_key`, from a dictionary on
unfoldable pub by_posting_key : List Migration → Dict (List String) → Dict (List String)
by_posting_key [] groups = groups
by_posting_key (m ∷ ms) groups =
    by_posting_key ms (
      insert m.posting_key (keys_or_none (lookup m.posting_key groups) ++ m.legacy_key ∷ []) groups)

-- The posting keys that several items would get.
unfoldable pub conflicts_of : Dict (List String) → Dict (List String)
conflicts_of [] = []
conflicts_of ((key, legacy_keys) ∷ groups) =
    let rest = conflicts_of groups in
    if ltb 1 (length legacy_keys) then (key, legacy_keys) ∷ rest else rest

-- What a preview of an old store holds.
unfoldable pub preview_core : MigrationHost → StatusFile → String → VoucherStatusStore → PreviewCore
preview_core host file company_id current =
    let source = source_hash_of file in
    let company =
      strip (or_else company_id (or_else current.company_id (host.migration_company_id source))) in
    let mappings = migrations host.base company (sorted_items current.items) in
    record {
      source_sha256 = source;
      source_revision = current.revision;
      company_id = company;
      mappings = mappings;
      conflicts = conflicts_of (by_posting_key mappings []);
    }

abbrev pub required_preview : MigrationHost → PreviewCore → Preview
required_preview host core = record {
  migration_required = true;
  core = core;
  preview_hash = host.preview_sha256 core;
}

abbrev pub idle_preview : StatusFile → VoucherStatusStore → Preview
idle_preview file current = record {
  migration_required = false;
  core = record {
    source_sha256 = source_hash_of file;
    source_revision = current.revision;
    company_id = current.company_id;
    mappings = [];
    conflicts = [];
  };
  preview_hash = "";
}

-- `preview_voucher_status_migration`
unfoldable pub preview_voucher_status_migration :
    MigrationHost → StatusFile → String → VoucherStatusStore → Preview
preview_voucher_status_migration host file company_id current =
    if needs_migration current
    then required_preview host (preview_core host file company_id current)
    else idle_preview file current

-- The state of an item after the migration: an import that was said to have failed is unknown.
unfoldable pub migrated_state : VoucherState → VoucherState
migrated_state import_failed = import_unknown
migrated_state other_state = other_state

unfoldable pub migrated_item : Host → String → Migration → VoucherStatusItem → VoucherStatusItem
migrated_item host source_sha256 m item = record item {
  status = migrated_state item.status;
  snapshot = m.snapshot;
  legacy_keys = dedup_from [] (item.legacy_keys ++ m.legacy_key ∷ []);
  item_revision = item.item_revision + 1;
  audit =
      item.audit
      ++ audit_entry host "migrate_v1_to_v2" "bookkeeping.migration"
          (fields (("legacy_key", m.legacy_key) ∷ ("source_sha256", source_sha256) ∷ []))
        ∷ [];
}

-- The loop over the mappings.
unfoldable pub migrated_items :
    Host
    → String
    → Dict VoucherStatusItem
    → List Migration
    → Dict VoucherStatusItem
    → Result (Dict VoucherStatusItem)
migrated_items host source_sha256 old [] items = ok items
migrated_items host source_sha256 old (m ∷ ms) items = do
  original ← or_raise (lookup m.legacy_key old) (not_found m.legacy_key)
  migrated_items host source_sha256 old ms
      (insert m.posting_key (migrated_item host source_sha256 m original) items)

-- The backup that is there, or the one that a copy makes.
abbrev pub backup_of : Bool → Option String → String → String → Result (Unit {0})
backup_of false backup copied source = ok tt
backup_of true (some hash) copied source = raise_if (not (str_eq hash source)) backup_differs
backup_of true none copied source = raise_if (not (str_eq copied source)) backup_corrupt

unfoldable pub checked_backup : StatusFile → String → Result (Unit {0})
checked_backup file source_sha256 = backup_of file.path_exists file.backup file.copied source_sha256

-- The keyword arguments of a migration.
pub record MigrationArgs : Type 0 where
  pub source_sha256 : String
  pub company_id : String
  pub preview_hash : String
  pub expected_revision : Option ℕ
  pub ledger_environment : String
  pub ledger_identity_sha256 : String
  pub ledger_profile_sha256 : String

-- The migration, once the preview is known to be the one that was seen.
unfoldable pub migrate :
    MigrationHost
    → StatusFile
    → MigrationArgs
    → PreviewCore
    → VoucherStatusStore
    → Result VoucherStatusStore
migrate host file args core current = do
  raise_if (not (is_empty core.conflicts)) migration_conflict
  checked_backup file args.source_sha256
  items ← migrated_items host.base args.source_sha256 current.items core.mappings []
  ok (record {
    version = schema_version;
    revision = current.revision + 1;
    company_id = core.company_id;
    ledger_environment = args.ledger_environment;
    ledger_identity_sha256 = args.ledger_identity_sha256;
    ledger_profile_sha256 = args.ledger_profile_sha256;
    updated_at = host.base.now;
    items = items;
    batches = [];
  })

abbrev pub migrate_if :
    MigrationHost
    → StatusFile
    → MigrationArgs
    → Preview
    → VoucherStatusStore
    → Bool
    → Result VoucherStatusStore
migrate_if host file args preview current true = migrate host file args preview.core current
migrate_if host file args preview current false = ok current

unfoldable pub apply_voucher_status_migration :
    MigrationHost → StatusFile → MigrationArgs → VoucherStatusStore → Result VoucherStatusStore
apply_voucher_status_migration host file args current = do
  raise_if
      (is_empty_text args.source_sha256 || not (str_eq (source_hash_of file) args.source_sha256))
      source_changed
  let preview = preview_voucher_status_migration host file args.company_id current
  revision_guard args.expected_revision current
  raise_if
      (not (is_empty_text args.preview_hash) && not (str_eq preview.preview_hash args.preview_hash))
      (proposal_conflict args.preview_hash preview.preview_hash)
  migrate_if host file args preview current preview.migration_required
