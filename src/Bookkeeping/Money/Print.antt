-- ===== src/Bookkeeping/Money/Print.antt =====
-- `format(number, "f")`, and that `Decimal` reads it back.
pub mod Digits
pub mod Scan
pub mod RoundTrip
unfoldable pub use Digits.{format_f, format_cents}
pub use RoundTrip.{decimal_of_text-format_f}
