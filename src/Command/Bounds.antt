-- ===== src/Command/Bounds.antt =====
-- What `run_capture` of src/dbus_cmd.c returns of the streams that it reads, and when it stops.
use cellmgr.Base.{
  ◌+◌, ◌⊎◌, ℕ, zero, suc, Bool, true, false, ◌||◌, List, [], ◌∷◌, ◌++◌, map, Option, none, some,
  if◌then◌else◌, Bytes, take, ◌≡◌, ◌≢◌, refl, sym, ap, ◌∙◌, subst, inl, inr, arith, Bool-cases,
  Option-cases, append_assoc, append-nil,
}
use cellmgr.Base.Int.{ℤ, pos, negsuc}
use cellmgr.Command.Capture.{
  exited, signaled, other, Round, Stream, start, receive_open, is_late, capture, run_capture,
  WaitStatus, exit_code_of, CommandResult,
}
use cellmgr.Command.Rounds.{
  IsPast, open_behind, Used, closed, past, further, is_late-IsPast, is_open-receive_open,
}
use cellmgr.Command.Streams.{delivered, Tracks, receive_open-Tracks}

-- The rounds that the loop went through, and that each result is cut from what they delivered.
pub record Captured (n : ℕ) (out err : Stream) (t v : Bytes) (rounds : List Round)
    (out' err' : Stream) : Type 0 where
  pub used : List Round
  pub unused : List Round
  pub splits : rounds ≡ used ++ unused
  pub out_kept : out'.kept ≡ take n (t ++ delivered out.is_open (map (λ r. r.out_read) used))
  pub err_kept : err'.kept ≡ take n (v ++ delivered err.is_open (map (λ r. r.err_read) used))

-- The end of the loop: no further round.
stopped :
    (n : ℕ) (out err : Stream) (t v : Bytes) (rounds : List Round)
    → out.kept ≡ take n t
    → err.kept ≡ take n v
    → Captured n out err t v rounds out err
stopped n out err t v rounds h k = record {
  used = [];
  unused = rounds;
  splits = refl;
  out_kept = h ∙ ap (take n) (sym (nil out.is_open t));
  err_kept = k ∙ ap (take n) (sym (nil err.is_open v));
}
  where
    nil : (o : Bool) (t : Bytes) → t ++ delivered o [] ≡ t
    nil false t = append-nil t
    nil true t = append-nil t

-- A round in front of the others.
prepend :
    (n : ℕ) (out err : Stream) (t v : Bytes) (r : Round) (rounds : List Round) (out' err' : Stream)
    (x : Tracks n out t r.out_read) (y : Tracks n err v r.err_read)
    → Captured n
        (receive_open n r.out_read out)
        (receive_open n r.err_read err)
        (t ++ x.0)
        (v ++ y.0)
        rounds
        out'
        err'
    → Captured n out err t v (r ∷ rounds) out' err'
prepend n out err t v r rounds out' err' x y c = record {
  used = r ∷ c.used;
  unused = c.unused;
  splits = ap (◌∷◌ r) c.splits;
  out_kept = c.out_kept ∙ ap (take n) (append_assoc t x.0 _ ∙ ap (λ s. t ++ s) (sym (x.2 _)));
  err_kept = c.err_kept ∙ ap (take n) (append_assoc v y.0 _ ∙ ap (λ s. v ++ s) (sym (y.2 _)));
}

-- What the loop leaves, if it has ended.
abbrev Good :
    ℤ → ℕ → Stream → Stream → Bytes → Bytes → List Round → Option (Bool × Stream × Stream) → Type 0
Good ms n out err t v rounds none = Unit
Good ms n out err t v rounds (some (killed, out', err')) =
    (c : Captured n out err t v rounds out' err') × Used ms out.is_open err.is_open c.used

capture_step :
    (ms : ℤ) (n : ℕ) (out err : Stream) (r : Round) (rounds : List Round)
    → capture ms n out err (r ∷ rounds) ≡ (
        if out.is_open || err.is_open
        then (if is_late ms r.elapsed
            then some (true, receive_open n r.out_read out, receive_open n r.err_read err)
            else capture ms n
                (receive_open n r.out_read out)
                (receive_open n r.err_read err)
                rounds)
        else some (false, out, err))
capture_step ms n out err r rounds = unfold capture in refl

later-Good :
    (ms : ℤ) (n : ℕ) (out err : Stream) (t v : Bytes) (r : Round) (rounds : List Round)
    (x : Tracks n out t r.out_read) (y : Tracks n err v r.err_read)
    (res : Option (Bool × Stream × Stream))
    → (out.is_open || err.is_open) ≡ true
    → ¬ IsPast ms r
    → Good ms n
        (receive_open n r.out_read out)
        (receive_open n r.err_read err)
        (t ++ x.0)
        (v ++ y.0)
        rounds
        res
    → Good ms n out err t v (r ∷ rounds) res
unfolding prepend
later-Good ms n out err t v r rounds x y none is_open early g = tt
later-Good ms n out err t v r rounds x y (some (k, o, e)) is_open early (c, used) = (
  prepend n out err t v r rounds o e x y c,
  further out.is_open err.is_open r c.used is_open early (
      subst (λ b. Used ms b (open_behind err.is_open r.err_read) c.used)
        (is_open-receive_open n r.out_read out.is_open out.kept)
        (subst (λ b. Used ms (receive_open n r.out_read out).is_open b c.used)
          (is_open-receive_open n r.err_read err.is_open err.kept) used)),
)

capture-Good :
    (ms : ℤ) (n : ℕ) (out err : Stream) (t v : Bytes) (rounds : List Round)
    → out.kept ≡ take n t
    → err.kept ≡ take n v
    → Good ms n out err t v rounds (capture ms n out err rounds)
unfolding stopped prepend
capture-Good ms n out err t v [] h k = elim (Bool-cases (out.is_open || err.is_open)) [
  | inl o ↦ rw (capture_nil, o) tt
  | inr c ↦ rw (capture_nil, c) (stopped n out err t v [] h k, closed out.is_open err.is_open c)
]
  where
    capture_nil :
        capture ms n out err []
        ≡ (if out.is_open || err.is_open then none else some (false, out, err))
    capture_nil = unfold capture in refl
capture-Good ms n out err t v (r ∷ rounds) h k = elim (Bool-cases (out.is_open || err.is_open)) [
  | inr c ↦
      rw (capture_step, c)
        (stopped n out err t v (r ∷ rounds) h k, closed out.is_open err.is_open c)
  | inl o ↦ elim (Bool-cases (is_late ms r.elapsed)) [
    | inl late ↦
        rw (capture_step, o, late)
          (
            prepend n out err t v r rounds _ _ x y (stopped n _ _ _ _ rounds x.1 y.1),
            past out.is_open err.is_open r o ((is_late-IsPast ms r).0 late),
          )
    | inr more ↦
        rw (capture_step, o, more)
          (later-Good ms n out err t v r rounds x y _ o ((is_late-IsPast ms r).1 more) (
            capture-Good ms n (receive_open n r.out_read out) (receive_open n r.err_read err)
              (t ++ x.0) (v ++ y.0) rounds x.1 y.1))
  ]
]
  where
    x : Tracks n out t r.out_read
    x = receive_open-Tracks n out.kept t out.is_open r.out_read h

    y : Tracks n err v r.err_read
    y = receive_open-Tracks n err.kept v err.is_open r.err_read k

-- The exit code of a child by how it ended: 128 and the signal for one that was killed.
pub data ExitCode : WaitStatus → ℤ → Type 0 where
  by_exit : (code : ℕ) → ExitCode (exited code) (pos code)
  by_signal : (signal : ℕ) → ExitCode (signaled signal) (pos (128 + signal))
  not_told : ExitCode other (negsuc 0)

exit_code_of-ExitCode : (status : WaitStatus) → ExitCode status (exit_code_of status)
exit_code_of-ExitCode (exited code) = by_exit code
exit_code_of-ExitCode (signaled signal) = by_signal signal
exit_code_of-ExitCode other = not_told

-- The result of a child that was started: of each stream the first `n` bytes that were read, in the
-- rounds that the loop goes through.
pub record Ran (ms : ℤ) (n : ℕ) (rounds : List Round) (status : WaitStatus) (code : ℤ)
    (res : CommandResult) : Type 0 where
  pub used : List Round
  pub unused : List Round
  pub splits : rounds ≡ used ++ unused
  pub returns_zero : code ≡ pos 0
  pub used_is : Used ms true true used
  pub exit_code_is : ExitCode status res.exit_code
  pub out_is : res.out ≡ some (take n (delivered true (map (λ r. r.out_read) used)))
  pub err_is : res.err ≡ some (take n (delivered true (map (λ r. r.err_read) used)))

abbrev GoodResult : ℤ → ℕ → List Round → WaitStatus → Option (ℤ × CommandResult) → Type 0
GoodResult ms n rounds status none = Unit
GoodResult ms n rounds status (some (code, res)) = Ran ms n rounds status code res

captured-GoodResult :
    (ms : ℤ) (n : ℕ) (rounds : List Round) (status : WaitStatus)
    (c : Option (Bool × Stream × Stream))
    → Good ms n start start [] [] rounds c
    → GoodResult ms n rounds status (elim c [
      | none ↦ none
      | some (killed, out, err) ↦ some (
        pos 0,
        record { out = some out.kept; err = some err.kept; exit_code = exit_code_of status },
      )
    ])
captured-GoodResult ms n rounds status none g = tt
captured-GoodResult ms n rounds status (some (was_killed, out, err)) (g, used) = record {
  used = g.used;
  unused = g.unused;
  splits = g.splits;
  used_is = used;
  returns_zero = refl;
  exit_code_is = exit_code_of-ExitCode status;
  out_is = ap some g.out_kept;
  err_is = ap some g.err_kept;
}

take_nil : (n : ℕ) → [] ≡ take {A = ℕ} n []
take_nil zero = refl
take_nil (suc n) = refl

-- When `run_capture` returns for a started child it returns 0, with the exit code that the wait
-- status stands for, and each of the two texts is the first `max_output` bytes of what was read of
-- its stream, in order, up to the end of the stream or the round of the timeout.
pub run_capture-Ran :
    (ms : ℤ) (n : ℕ) (rounds : List Round) (status : WaitStatus) {code : ℤ} {res : CommandResult}
    → run_capture ms n true rounds status ≡ some (code, res)
    → Ran ms n rounds status code res
unfolding run_capture
run_capture-Ran ms n rounds status h = subst (GoodResult ms n rounds status) h (
    captured-GoodResult ms n rounds status (capture ms n start start rounds)
      (capture-Good ms n start start [] [] rounds (take_nil n) (take_nil n)))

-- A round behind the timeout.
abbrev pub late_seen : ℤ → List Round → Bool
late_seen ms [] = false
late_seen ms (r ∷ rounds) = is_late ms r.elapsed || late_seen ms rounds

capture-ne-none :
    (ms : ℤ) (n : ℕ) (out err : Stream) (rounds : List Round)
    → late_seen ms rounds ≡ true
    → capture ms n out err rounds ≢ none
capture-ne-none ms n out err [] h = cc
capture-ne-none ms n out err (r ∷ rounds) h = ground (
  arith,
  capture_step ms n out err r rounds,
  capture-ne-none ms n (receive_open n r.out_read out) (receive_open n r.err_read err) rounds,
)

-- A round behind the timeout, as a proposition.
abbrev pub PastSeen : ℤ → List Round → Type 0
PastSeen ms [] = ⊥
PastSeen ms (r ∷ rounds) = IsPast ms r ⊎ PastSeen ms rounds

PastSeen-late_seen :
    (ms : ℤ) (rounds : List Round) → PastSeen ms rounds → late_seen ms rounds ≡ true
PastSeen-late_seen ms [] h = absurd h
PastSeen-late_seen ms (r ∷ rounds) h = elim (Bool-cases (is_late ms r.elapsed)) [
  | inl late ↦ rw late refl
  | inr early ↦ elim h [
    | inl late ↦ absurd ((is_late-IsPast ms r).1 early late)
    | inr more ↦ rw early (PastSeen-late_seen ms rounds more)
  ]
]

-- With a positive timeout `run_capture` returns, at the latest in the first round that ends behind it,
-- whatever the child does with its streams.
pub run_capture_ends :
    (ms : ℤ) (n : ℕ) (started : Bool) (rounds : List Round) (status : WaitStatus)
    → late_seen ms rounds ≡ true
    → run_capture ms n started rounds status ≢ none
unfolding run_capture
run_capture_ends ms n false rounds status h = cc
run_capture_ends ms n true rounds status h =
    ground (arith, capture-ne-none ms n start start rounds h)

-- Once a round has ended behind a positive timeout, and with a child that then ends with `status`,
-- `run_capture` has returned: 0, with the exit code that the status stands for, and of each stream the
-- first `max_output` bytes that were read, in order, up to its end or the last round used. The rounds
-- used go on while one of the streams is open, and end with the first one behind the timeout.
pub run_capture_returns :
    (ms : ℤ) (n : ℕ) (rounds : List Round) (status : WaitStatus)
    → PastSeen ms rounds
    → (code : ℤ) × (res : CommandResult) × (run_capture ms n true rounds status ≡ some (code, res))
      × Ran ms n rounds status code res
run_capture_returns ms n rounds status h =
    elim (Option-cases (run_capture ms n true rounds status)) [
      | inl e ↦ absurd (run_capture_ends ms n true rounds status (PastSeen-late_seen ms rounds h) e)
      | inr ((code, res), e) ↦ (code, res, e, run_capture-Ran ms n rounds status e)
    ]
