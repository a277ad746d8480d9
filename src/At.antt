-- ===== src/At.antt =====
-- src/at.c: the filter on AT commands (Filter), what it lets pass (Safe), and sending one (Send).
pub mod Filter
pub mod Safe
pub mod Send
