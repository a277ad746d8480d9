-- ===== src/Smtp.antt =====
-- src/smtp.c: the connection (Connect), base 64 (Base64 and its decoding, Decode), the dialogue (Session),
-- and what a successful dialogue means (Dialogue); where it goes wrong (Limits).
pub mod Connect
pub mod Base64
pub mod Decode
pub mod Session
pub mod Dialogue
pub mod Limits
