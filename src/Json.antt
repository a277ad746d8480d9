-- ===== src/Json.antt =====
-- src/json_util.c: writing JSON strings and properties (Escape), finding the value of a key and
-- reading it (Lookup), what is read back of what was written (RoundTrip), and the grammar of
-- what is written (Grammar).
pub mod Escape
pub mod Lookup
pub mod Strings
pub mod RoundTrip
pub mod Grammar
