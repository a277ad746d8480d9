-- ===== src/Common.antt =====
-- src/common.c: the growing buffer (Buf) the trimming of strings in place
-- (Trim), and whole files (Files).
pub mod Buf
pub mod Trim
pub mod Files
