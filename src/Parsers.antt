-- ===== src/Parsers.antt =====
-- src/parsers.c: answers of the modem and of D-Bus, turned into JSON. Lines and quoted text (Quoted),
-- the simple answers (Answer), the bands (Bands), the cells (Cells), the messages (Sms), the
-- properties and the message objects of D-Bus (Dbus, Messages), and the choice of a parser (Dispatch). The modules
-- called Syntax are about the grammar of what is written.
pub mod Quoted
pub mod Syntax
pub mod Answer
pub mod Bands
pub mod Cells
pub mod Sms
pub mod Dbus
pub mod Messages
pub mod Dispatch
