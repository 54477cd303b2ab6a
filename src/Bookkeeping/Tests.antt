-- ===== src/Bookkeeping/Tests.antt =====
-- Concrete inputs, and the theorems at them.
mod Data
mod Status
mod Decided
mod Batch
mod Rules
mod Drafts
mod Migration
