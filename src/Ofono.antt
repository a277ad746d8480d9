-- ===== src/Ofono.antt =====
-- src/ofono.c: the calls that go to the modem (Send), and the choice of the modem's path (Resolve).
pub mod Send
pub mod Terminator
pub mod Resolve
