-- ===== src/Db.antt =====
-- src/db.c: the statements that it gives to SQLite (Statements), reading and writing settings,
-- profiles and the cache (Tables), the lists in JSON (Lists), what SQLite is assumed to do with these
-- statements (Lawful), a system in memory that does it (Memory), the settings (Settings), and
-- the opening of the database (Open).
pub mod Statements
pub mod Tables
pub mod Lists
pub mod Lawful
pub mod Memory
pub mod Settings
pub mod Open
