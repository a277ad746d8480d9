-- ===== src/Command.antt =====
-- src/dbus_cmd.c: running a program and capturing what it prints (Capture, Streams, Rounds, Bounds), and the arguments
-- of `dbus-send` (Call).
pub mod Capture
pub mod Streams
pub mod Rounds
pub mod Bounds
pub mod Call
