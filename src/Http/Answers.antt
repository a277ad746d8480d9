-- ===== src/Http/Answers.antt =====
-- The answers that src/http.c writes: which they are (Answered), that every handler gives one
-- (Handlers, Stored, Network), how a client reads them (Reading), and what comes back over the
-- connections (Served).
pub mod Answered
pub mod Handlers
pub mod Stored
pub mod Network
pub mod Reading
pub mod Served
