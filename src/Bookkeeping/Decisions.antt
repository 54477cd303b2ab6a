-- ===== src/Bookkeeping/Decisions.antt =====
-- src/invoice_hub/bookkeeping/decisions.py: a manual decision replaces the lines of a voucher.
pub mod Allocations
pub mod Lines
pub mod Apply
pub mod Sums
pub mod Validated
pub mod Balance
pub mod Saved
pub use Lines.{AccountRecord, AuxiliaryRecord, LedgerCatalog}
unfoldable pub use Allocations.{validated_allocations}
unfoldable pub use Lines.{line_decisions, materialize_lines, direction_total}
unfoldable pub use Apply.{apply_voucher_decision}
