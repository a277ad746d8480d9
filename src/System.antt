-- ===== src/System.antt =====
-- What the operating system and SQLite do for the program, as operations on a `World` that holds all
-- state outside of the process's own variables, and programs over them.
use cellmgr.Base.{ℕ, Bool, List, Option, Bytes}
use cellmgr.Base.Int.{ℤ}
use cellmgr.Command.Call.{Runner}

-- A bound value of a statement.
pub data Value : Type 0 where
  text : Bytes → Value
  int : ℤ → Value

-- A row of a result: `sqlite3_column_text` and `sqlite3_column_int64` of each column.
pub record Row : Type 0 where
  pub text_of : ℕ → Option Bytes
  pub int_of : ℕ → ℤ

-- A statement that is not prepared, or the rows of its steps and whether they end with `SQLITE_DONE`.
pub data Reply : Type 0 where
  refused : Reply
  stepped : List Row → Bool → Reply

-- Each operation is what a call that comes back does. `run_capture` may not come back, without a timeout
-- for one (Command/Bounds), and a program over the world is about the runs in which every call does: the
-- daemon then goes through the steps of such a run up to that call. `sql` prepares a text, binds the values and steps. `connect_tcp` gives what the server will send,
-- and `close` takes what was written to it.
pub record System (World : Type 0) : Type 0 where
  pub run_capture : Runner World
  pub sql : Bytes → List Value → World → Reply × World
  pub now_unix : World → ℤ
  pub read_text_file : Bytes → ℕ → World → Option Bytes
  pub write_text_file : Bytes → Bytes → World → Bool × World
  pub connect_tcp : Bytes → ℤ → World → Option Bytes × World
  pub close : List Bytes → World → World

-- A piece of the program that acts on the world.
abbrev pub Prog : Type 0 → Type 0 → Type 0
Prog World A = World → A × World
