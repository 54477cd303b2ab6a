-- ===== src/Lib.antt =====
-- Invoice Hub: bookkeeping of vouchers and import batches, and the monitor's state.
--
-- The program watches a folder of invoices, makes voucher drafts of them, has a person review and
-- decide them, exports the approved ones in batches to a ledger, and records what the ledger shows
-- afterwards. Every change of a voucher or of a batch is a transaction on one file, the status
-- store. The modules here model these parts of src/invoice_hub:
--
-- Domain: the records of domain/models.py. `VoucherDraft`, `VoucherStatusItem`, `ImportBatch` and
--   the others keep the fields and the names of the classes; a text that may only take some values
--   is a data type (Domain/States), and a `dict[str, Any]` holds values of `Json`. What pydantic validates is not modelled.
-- Bookkeeping/Result: what the operations raise, as values of `Error`, and chains of steps.
-- Bookkeeping/Status: bookkeeping/status.py. Table has the transitions and the locked states,
--   Store the store and `mutate_voucher_status`, Hash the keys and `proposal_revision_hash`,
--   Transition `transition_voucher_status` and `apply_review_patch`, Merge `merge_voucher_drafts`,
--   Migrate the migration of stores of version 1.
-- Bookkeeping/Money: `decimal.Decimal` as bookkeeping uses it, and `_money`.
-- Bookkeeping/Decisions: bookkeeping/decisions.py. Allocations has `_validated_allocations`, Lines
--   `_line_decisions`, `_materialize_lines` and `_decided_line`, Apply `apply_voucher_decision`.
-- Bookkeeping/Batches: bookkeeping/batches.py. Register has `register_export_batch` and
--   `record_batch_dry_run`, Begin `begin_import_batch`; `finalize_import_batch` is split in Observed
--   (the checks of the payload), Settle (the loop over the items) and Finalize (the rest). The other
--   modules there hold the theorems, each under what it is about.
-- Bookkeeping/Mapping: bookkeeping/mapping.py. Rule has a rule and its normal form, Match
--   `match_account_rule`, Resolve `resolve_account_mapping`, Store `write_mapping`, Append
--   `append_rule`.
-- Bookkeeping/Vouchers: bookkeeping/vouchers.py. Row reads the fields of a row, Lines has
--   `_voucher_lines_for_source` and the account table, Facts the body of the loop over the rows,
--   Draft `_draft_from_group`, Group `generate_voucher_drafts`. It uses the rules of Mapping.
-- Monitoring: monitoring/state.py and monitoring/polling_observer.py. Progress has `SyncProgress`,
--   Changes `detect_source_changes` (the theorems on it are in Detected and
--   Unchanged), Lock the lock of the monitor, Race the steps of two monitors that
--   take it at the same time, Polling the loop of the observer.
-- Bookkeeping/Tests and Monitoring/Tests: concrete vouchers, batches and runs.
-- Prelude: numbers, lists, texts and dictionaries. A `dict` is a list of pairs in insertion order.
--
-- A transaction runs under a lock on the store's directory, so it is a function from the content of
-- the file to an error or to the new content and a result. What it takes from outside is a record of
-- parameters: `Host` (the clock, uuid, hashes, `repr`), `BatchHost` (also the file at a path),
-- `MappingHost`, `VoucherHost`, `MigrationHost`, `System`. One reading of the clock stands for those
-- of one operation, files do not change while drafts are made, and a hash is any
-- function: no theorem needs it to be free of collisions.
--
-- All loops are over lists, so there is no fuel. Numbers are natural numbers without bound, as
-- Python's; amounts are decimals of any size. Digits other than those of ASCII are not read in an
-- amount, and the rounding of `Decimal` beyond 28 digits is not modelled. `Decimal` keeps a positive
-- exponent, as in `1E+2`, where the model reads 100: format "f" prints both alike, and comparison
-- and sums do not tell them apart. `str(...)` of a value that
-- is a text already is left out.
--
-- Not modelled: reading and writing files (what a load validates included), the files of
-- a batch, `report_fraction`, which computes with floats, the threads of the monitor, the extraction
-- of invoices, the HTTP services and the front ends.
pub mod Prelude
pub mod Domain
pub mod Bookkeeping
pub mod Monitoring
