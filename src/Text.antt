-- ===== src/Text.antt =====
-- Python's `str` as the list of its code points, with the methods that the sources call.
-- Letter case is that of ASCII: other letters have none here.
pub mod Chars
pub mod Search
pub mod Number
pub mod Digits
