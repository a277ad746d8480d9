-- ===== src/Lib.antt =====
-- cellmgrd is a daemon that manages a cellular modem: it talks to oFono over D-Bus by running
-- `dbus-send`, sends AT commands, turns the answers into JSON for a web interface, forwards text
-- messages by mail, and reboots the device at a set time. These modules model the parts of it that
-- compute: each function of the C code is a function by clauses, and the theorems say what it does.
--
-- A C string is the list of its bytes without the NUL (`Bytes`), a pointer into a string is the suffix
-- that it points at, and a null pointer is `none`. An `int` is an element of ℤ, brought into its 32
-- bits where the code converts. Text that is appended to a buffer is the list of the bytes appended;
-- the buffer itself, with its cells and its growth, is modelled once, in Common/Buf. What the
-- operating system and SQLite do is a parameter or an argument: running a program, a statement and its
-- rows, the clock, files and connections, as operations on a `World` that stands for all state outside
-- of the process (System); the rounds of reads that `run_capture` sees and the end of the child; the
-- bytes that a mail server sends. What SQLite is assumed to do with the statements of the program is
-- stated on abstract tables, and a system in memory meets it (Db/Lawful, Db/Memory).
--
-- The modules, with the code that they are about:
--   Base        lists, numbers, Boolean tests and ℤ for the other modules; no code of the program
--   Libc        the functions of the C library that the program calls, as far as it uses them: searches,
--               tokens, `atoi`, decimal numbers and `sscanf` with the directives that occur
--   Common      src/common.c: `buf_reserve`, `buf_init`, `buf_append_n`, `buf_append`, `buf_appendf`
--               (Buf, Buf/Append, Buf/Grow, Buf/Cells), `trim_in_place` (Trim), `read_text_file`,
--               `write_text_file` and `xstrdup` (Files)
--   Json        src/json_util.c: `json_escape`, `json_prop_string`, `json_prop_int` (Escape),
--               `find_key_value`, `json_get_string`, `json_get_int` (Lookup); a reader of JSON strings
--               and the grammar of JSON after RFC 8259 (Strings, Grammar); what is read back of a property
--               (RoundTrip)
--   Config      src/config.h and src/config.c: `app_config`, `config_defaults` and the branches of
--               `set_key` (Fields), `set_key` and `config_load` (Load), their properties (Fits, Keys)
--   Command     src/dbus_cmd.c: `run_capture` (Capture, Streams, Rounds, Bounds) and `dbus_send_call` (Call)
--   Ofono       src/ofono.c: one function for each call (Send), the argument of an AT command
--               (Terminator), `ofono_resolve_modem_path` (Resolve, Resolve/Best)
--   At          src/at.c: `at_is_safe_command` (Filter), `at_send` (Send), what the filter does (Safe)
--   Smtp        src/smtp.c: `connect_tcp` (Connect), `base64_encode` (Base64, Decode), the dialogue (Session, Dialogue), and
--               its limits (Limits)
--   Scheduler   src/scheduler.c: `scheduler_main` over ticks of the clock (Scheduler/Days)
--   Parsers     src/parsers.c: quoted text and lines (Quoted with its children), the answers of one line
--               (Answer), bands (Bands, Bands/Distinct), cells (Cells), stored messages (Sms), properties
--               and message objects of D-Bus (Dbus, Messages with its children), the choice of a parser
--               (Dispatch); the modules called Syntax are about the grammar of the answers
--   System      the operations of the operating system and of SQLite that src/db.c, src/profile.c,
--               src/sms_forward.c, src/http.c and src/main.c use
--   Db          src/db.c: its statements (Statements), settings, profiles, the cache and the inserts
--               (Tables), the lists (Lists), the opening (Open, Open/Parents); tables and laws (Lawful,
--               Memory, Settings)
--   Profile     src/profile.c: `find_capability_block` (Block), commands and times to live (Capability),
--               imports and the active profile (Import), the blocks that it is meant for (Grammar)
--   SmsForward  src/sms_forward.c
--   DbusMonitor src/dbus_monitor.c: `monitor_main` over what the monitor prints
--   Http        src/http.h and src/http.c: state and answers (State), `parse_request` and
--               `request_authorized` (Request), `replace_token` and commands from a profile (Template),
--               the handlers, in the order of the file (Modem, Commands, Sms, Profiles, Settings,
--               Network), `route_request` (Route, Serve) and the loop of `http_serve` (Serve); sessions
--               (Access), confirmation (Confirm), arrays (Fits), templates (Replace), the tables behind
--               two handlers (Deletion, Cache), requests that a client writes (Framing, RoundTrip), what
--               every request keeps (Closed), the socket (Listen), the answers as a client reads them
--               (Answers with its children), those whose body is JSON (Written with its children)
--   Start       src/main.c: the profile, the settings that are restored and the path of the modem;
--               saving and restoring (Settings), the next start (Next), arrays (Fits), the whole of `main`
--               (Main)
--   Sysinfo     src/sysinfo.c: `cpu_usage_percent` (Cpu, Cpu/Busy), `meminfo` (Memory, Memory/Table),
--               `net_bytes` (Net, Net/Table), the other readings and `sysinfo_json` (Report), and as the
--               services of the handlers (Service)
--   Daemon      the threads of src/main.c, src/scheduler.c, src/dbus_monitor.c and src/http.c over the
--               state that they share: in any order (Traces), the programs that the
--               scheduler runs (Reboots), from the start on (Boot), what `main` comes to (Outcomes)
--   Tests       concrete runs
--
-- Config is read by Ofono, At and Scheduler; Command runs the programs for Ofono and Scheduler; At
-- sends through Ofono; Parsers writes with Json; every text goes through Common. A handler of Http takes
-- the configuration and the world, calls At, Ofono, Profile, Db and SmsForward, and gives the bytes of
-- its answer and the world behind it; the four handlers that assign to `state->cfg` give the state as
-- well. Connections are served one after the other, as the single loop of the code does; a turn of the loop
-- says what becomes of the bytes that are written: all go out, or some, or SIGPIPE, which nothing
-- ignores, ends the process (Http/Serve).
--
-- Fuel: the doubling of `buf_reserve` gets 65 rounds, after which a `size_t` has passed every need or
-- has become 0. A loop that searches on with `strstr` gets one round more than the text has bytes, and
-- so do the loops over lines of `find_line_prefix` and of the reading of a message, since every round
-- that goes on leaves a shorter text. A round of `replace_token` moves behind a token that is not empty,
-- so it gets one round more than the template has bytes. `run_capture` takes the rounds of its
-- environment and is `none` while they do not end it; its last `waitpid` is taken to return, with the
-- status that is an argument.
--
-- `meminfo` gets one round more than its text has bytes, since every round that goes on reads at least
-- one, and so does the loop of `ensure_parent_dir`, since every round leaves a shorter path.
--
-- The threads: a step of Daemon is a whole request, a whole turn of the scheduler, a line of the monitor,
-- or any change outside of the process, and the steps come in any order. The code takes no lock; what two
-- threads do to one field at the same moment is not looked at. The scheduler's `last_yday` is its own.
--
-- Not modelled: logging, the creation of threads and pipes, and what the pages of src/web_assets.c hold
-- (I/O and constants for the browser); the pages are parameters of the server (`Services`). The
-- arithmetic of doubles in src/sysinfo.c is a parameter (Sysinfo/Kernel). A refused allocation is
-- modelled for the buffer and for the functions of Common/Files only: elsewhere the text that the code
-- goes on with is the one that it appends. A request is what one `read` of its connection gives.
--
-- The operations of System are calls that come back. A `read` of a connection, and `run_capture` without
-- a positive timeout, may not: what is said of the server and of the threads is then about the steps up
-- to that call. A mail server is taken to accept every line that is written to it (Smtp/Session).
pub mod Base
pub mod Libc
pub mod Common
pub mod Json
pub mod Config
pub mod Command
pub mod Ofono
pub mod At
pub mod Smtp
pub mod Scheduler
pub mod Parsers
pub mod System
pub mod Db
pub mod Profile
pub mod SmsForward
pub mod Http
pub mod Start
pub mod DbusMonitor
pub mod Sysinfo
pub mod Daemon
mod Tests
