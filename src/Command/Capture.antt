-- ===== src/Command/Capture.antt =====
-- `run_capture` of src/dbus_cmd.c. What the child prints, when it does, how long it takes and how it
-- ends are the environment's: one `Round` for each turn of the loop around `select`.
use cellmgr.Base.{
  ℕ, ◌+◌, ◌-◌, ◌*◌, Bool, true, false, ◌&&◌, ◌||◌, List, [], ◌∷◌, ◌++◌, Option, none, some, ltb,
  if◌then◌else◌, Bytes, length, take,
}
use cellmgr.Base.Int.{ℤ, pos, negsuc}

-- `command_result`: what is not assigned is NULL.
pub record CommandResult : Type 0 where
  pub out : Option Bytes
  pub err : Option Bytes
  pub exit_code : ℤ

-- What `read` gives on a descriptor: nothing (not ready, or an error), bytes, or the end.
pub data Read : Type 0 where
  idle eof : Read
  bytes : Bytes → Read

-- One turn: the two reads, and the seconds since the start at its end.
pub record Round : Type 0 where
  pub out_read : Read
  pub err_read : Read
  pub elapsed : ℕ

-- How `waitpid` reports the child.
pub data WaitStatus : Type 0 where
  exited signaled : ℕ → WaitStatus
  other : WaitStatus

-- One stream: what was kept of it, and whether it is still open.
pub record Stream : Type 0 where
  pub kept : Bytes
  pub is_open : Bool

abbrev pub start : Stream
start = record { kept = []; is_open = true }

-- A read of at most 512 bytes; what does not fit in `max_output` is dropped. A read of no bytes is
-- the end.
unfoldable pub receive : ℕ → Read → Stream → Stream
receive max_output idle s = s
receive max_output eof s = record s { is_open = false }
receive max_output (bytes t) s =
    if ltb (length s.kept) max_output
    then record s {
      kept =
          s.kept
          ++ take
              (if ltb max_output (length s.kept + length t)
                then max_output - length s.kept
                else length t)
              t;
    }
    else s

-- A closed stream is not read any more.
unfoldable pub receive_open : ℕ → Read → Stream → Stream
unfolding receive
receive_open max_output r s = if s.is_open then receive max_output r s else s

-- The test of the timeout, which is off at 0 and below.
abbrev pub is_late : ℤ → ℕ → Bool
is_late (pos ms) secs = ltb 0 ms && ltb ms (secs * 1000)
is_late (negsuc ms) secs = false

-- The loop: `none` while it has not ended. The flag says whether the child was killed.
unfoldable pub capture : ℤ → ℕ → Stream → Stream → List Round → Option (Bool × Stream × Stream)
unfolding receive_open
capture timeout_ms max_output out err [] =
    if out.is_open || err.is_open then none else some (false, out, err)
capture timeout_ms max_output out err (r ∷ rounds) =
    let out' = receive_open max_output r.out_read out in
    let err' = receive_open max_output r.err_read err in
    let more = capture timeout_ms max_output out' err' rounds in
    if out.is_open || err.is_open
    then (if is_late timeout_ms r.elapsed then some (true, out', err') else more)
    else some (false, out, err)

-- `exit_code` by how the child ended.
abbrev pub exit_code_of : WaitStatus → ℤ
exit_code_of (exited n) = pos n
exit_code_of (signaled n) = pos (128 + n)
exit_code_of other = negsuc 0

abbrev pub not_run : CommandResult
not_run = record { out = none; err = none; exit_code = negsuc 0 }

-- The whole call: `started` is false where a pipe, the fork or a buffer fails. `none` while it waits.
unfoldable pub run_capture : ℤ → ℕ → Bool → List Round → WaitStatus → Option (ℤ × CommandResult)
unfolding capture
run_capture timeout_ms max_output false rounds status = some (negsuc 0, not_run)
run_capture timeout_ms max_output true rounds status =
    elim (capture timeout_ms max_output start start rounds) [
      | none ↦ none
      | some (killed, out, err) ↦ some (
        pos 0,
        record { out = some out.kept; err = some err.kept; exit_code = exit_code_of status },
      )
    ]
