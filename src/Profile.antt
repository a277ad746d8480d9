-- ===== src/Profile.antt =====
-- src/profile.c: the block of a capability in a profile (Block, Grammar), its commands and times to
-- live (Capability), and the import of profiles (Import).
pub mod Block
pub mod Grammar
pub mod Capability
pub mod Import
