-- ===== src/Libc.antt =====
-- The functions of the C library that the program calls on strings and numbers: characters and
-- searches (Text, Occurrences), lines (Lines), tokens (Token), decimal numbers (Number, Width),
-- `sscanf` (Scan) and single directives of `fscanf` (Fscan).
pub mod Text
pub mod Lines
pub mod Token
pub mod Occurrences
pub mod Number
pub mod Width
pub mod Scan
pub mod Fscan
pub mod Search
