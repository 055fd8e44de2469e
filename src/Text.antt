-- ===== src/Text.antt =====
-- myserver/src/base/string/stringutils.cpp, the parts on hexadecimal numbers, escapes and blanks, and securestr.cpp.
pub mod Hex
pub mod HexLaws
pub mod Decimal
pub mod Secure
pub mod SecureLaws
pub mod Blank
pub mod BlankLaws
mod Tests
