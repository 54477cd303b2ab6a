-- ===== src/Bookkeeping/Money.antt =====
-- `decimal.Decimal` as bookkeeping uses it: the amounts are texts, read by `Decimal(text)`, checked
-- by `_money`, and written back by `format(number, "f")`.
pub mod Number
pub mod Read
pub mod Print
pub use Number.{Decimal}
unfoldable pub use Number.{signed, is_cents, cents, decimal_eq, decimal_add, zero_decimal}
unfoldable pub use Read.{decimal_of_text, money}
pub use Print.{decimal_of_text-format_f}
unfoldable pub use Print.{format_f, format_cents}
