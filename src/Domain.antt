-- ===== src/Domain.antt =====
-- The records of src/invoice_hub/domain/models.py that bookkeeping reads and writes.
pub mod Json
pub mod Voucher
pub mod States
pub mod Batch
pub use Json.*
pub use Voucher.*
pub use States.*
pub use Batch.*
