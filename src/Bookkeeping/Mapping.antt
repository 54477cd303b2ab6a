-- ===== src/Bookkeeping/Mapping.antt =====
-- src/invoice_hub/bookkeeping/mapping.py: which account rule applies to a source line, and the store
-- of the rules.
pub mod Rule
pub mod Match
pub mod Resolve
pub mod Store
pub mod Append
pub mod Found
pub mod Best
pub mod Protected
