-- ===== src/Command/Rounds.antt =====
-- How long the loop of `run_capture` in src/dbus_cmd.c goes on.
use cellmgr.Base.{◌*◌, ◌<◌, ℕ, Bool, true, false, ◌||◌, List, [], ◌∷◌, Bytes, ◌≡◌, refl, arith}
use cellmgr.Base.Int.{ℤ, pos, negsuc}
use cellmgr.Command.Capture.{Read, idle, eof, bytes, Round, receive, receive_open, is_late}
use cellmgr.Command.Streams.{receive-is_open}

-- More than the timeout, which is off at 0 and below, has passed at the end of a round.
abbrev pub IsPast : ℤ → Round → Type 0
IsPast (pos ms) r = (0 < ms) × (ms < r.elapsed * 1000)
IsPast (negsuc ms) r = ⊥

-- Whether a stream is open behind a read.
abbrev pub open_behind : Bool → Read → Bool
open_behind is_open idle = is_open
open_behind is_open (bytes t) = is_open
open_behind is_open eof = false

-- The rounds of the loop, from streams that are open or closed: they go on while one of them is open
-- and end with the first round behind the timeout.
pub data Used (ms : ℤ) : Bool → Bool → List Round → Type 0 where
  closed : (o e : Bool) → (o || e) ≡ false → Used ms o e []
  past : (o e : Bool) (r : Round) → (o || e) ≡ true → IsPast ms r → Used ms o e (r ∷ [])
  further :
      (o e : Bool) (r : Round) (rounds : List Round)
      → (o || e) ≡ true
      → ¬ IsPast ms r
      → Used ms (open_behind o r.out_read) (open_behind e r.err_read) rounds
      → Used ms o e (r ∷ rounds)

pub is_late-IsPast :
    (ms : ℤ) (r : Round)
    → ((is_late ms r.elapsed ≡ true) → IsPast ms r)
      × ((is_late ms r.elapsed ≡ false) → ¬ IsPast ms r)
is_late-IsPast (pos ms) r = (λ h. ground (arith, h), λ h p. ground (arith, h, p))
is_late-IsPast (negsuc ms) r = (λ h. cc h, λ h p. p)

pub is_open-receive_open :
    (n : ℕ) (r : Read) (o : Bool) (k : Bytes)
    → (receive_open n r (record { kept = k; is_open = o })).is_open ≡ open_behind o r
unfolding receive_open receive
is_open-receive_open n idle false k = refl
is_open-receive_open n idle true k = refl
is_open-receive_open n eof false k = refl
is_open-receive_open n eof true k = refl
is_open-receive_open n (bytes t) false k = refl
is_open-receive_open n (bytes t) true k = receive-is_open n (record { kept = k; is_open = true }) t
