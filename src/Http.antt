-- ===== src/Http.antt =====
-- src/http.c: the state of the server and its answers (State), the reading of a request (Request),
-- commands with templates (Template), the handlers (Modem, Commands, Sms, Profiles, Settings,
-- Network), the paths (Route), and the choice of a handler for a request (Serve). About them: requests
-- without a session (Access), without `confirm` (Confirm), the configuration (Fits), templates
-- (Replace), the tables (Deletion, Cache), the form of a request (Framing, RoundTrip),
-- what every request keeps (Closed), the listening socket (Listen), the answers (Answers), and those
-- whose body is JSON (Written).
pub mod State
pub mod Request
pub mod Template
pub mod Written
pub mod Modem
pub mod Commands
pub mod Sms
pub mod Profiles
pub mod Settings
pub mod Network
pub mod Route
pub mod Serve
pub mod Access
pub mod Confirm
pub mod Closed
pub mod Fits
pub mod Replace
pub mod Deletion
pub mod Cache
pub mod Framing
pub mod RoundTrip
pub mod Listen
pub mod Answers
