-- ===== src/Text.antt =====
-- What the services use of Rust's `str` and `char`, over the native texts: character classes,
-- trimming, splitting, joining, formatting, and the laws of these. No file of the repository is
-- modelled here.
mod Chars
mod Trim
pub mod Words
mod Format
pub mod Append
pub mod Decimal
pub mod Split
pub mod Number
pub mod Utf8
mod Tests
unfoldable pub use Chars.{is_whitespace, is_control, to_ascii_lower, eq_ignore_ascii_case}
unfoldable pub use Trim.{trim, is_empty, split_once}
unfoldable pub use Words.{split_whitespace, join_spaces}
unfoldable pub use Format.{concat, replace_char, contains, any_char}
unfoldable pub use Decimal.{decimal}
unfoldable pub use Split.{split_on}
unfoldable pub use Number.{parse_u16, parse_usize, parse_i64}
unfoldable pub use Utf8.{as_bytes, from_utf8}
unfoldable pub use Chars.{char_of_byte}
pub use Chars.{code-char_of_byte}
