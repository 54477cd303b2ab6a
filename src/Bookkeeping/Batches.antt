-- ===== src/Bookkeeping/Batches.antt =====
-- src/invoice_hub/bookkeeping/batches.py: the life of an import batch, from its registration to the
-- reconciliation of what the ledger shows. Each operation is a mutator of the status store.
pub mod Shared
pub mod Register
pub mod Begin
pub mod Observed
pub mod Settle
pub mod Finalize
pub mod Inversion
pub mod Idempotent
pub mod Terminal
pub mod Imported
pub mod Evidence
pub mod Imports
pub mod Exported
pub mod Immutable
pub mod Authorized
pub mod Results
pub mod Observable
