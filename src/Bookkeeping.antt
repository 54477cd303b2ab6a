-- ===== src/Bookkeeping.antt =====
-- src/invoice_hub/bookkeeping
pub mod Result
pub mod Status
pub mod Money
pub mod Decisions
pub mod Batches
pub mod Mapping
pub mod Vouchers
mod Tests
