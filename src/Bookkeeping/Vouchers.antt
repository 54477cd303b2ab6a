-- ===== src/Bookkeeping/Vouchers.antt =====
-- src/invoice_hub/bookkeeping/vouchers.py: the drafts of vouchers that the rows of the summary give.
pub mod Row
pub mod Lines
pub mod Facts
pub mod Draft
pub mod Group
pub mod Rounding
pub mod Totals
pub mod Balanced
pub mod Faithful
pub mod Matched
pub mod Promised
pub mod Reviewed
pub mod Partition
pub mod Counted
