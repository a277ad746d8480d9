-- ===== src/Command/Streams.antt =====
-- What one turn of the loop of `run_capture` (src/dbus_cmd.c) keeps of a stream.
use cellmgr.Base.{
  ℕ, zero, suc, ◌+◌, ◌-◌, ◌≤◌, Bool, true, false, List, [], ◌∷◌, ◌++◌, ltb, if◌then◌else◌, Bytes,
  length, take, ◌≡◌, refl, sym, ap, ◌∙◌, inl, inr, arith, Bool-cases, append-nil, length-take,
  take-le, take-append_le, ltb→lt,
}
use cellmgr.Command.Capture.{Read, idle, eof, bytes, Stream, receive, receive_open}

-- The bytes of the reads up to the end of an open stream.
abbrev pub delivered : Bool → List Read → Bytes
delivered false rs = []
delivered true [] = []
delivered true (idle ∷ rs) = delivered true rs
delivered true (eof ∷ rs) = []
delivered true (bytes t ∷ rs) = t ++ delivered true rs

take-append_ge : (n : ℕ) (s t : Bytes) → length s ≤ n → take n (s ++ t) ≡ s ++ take (n - length s) t
take-append_ge n [] t h = let e : n - 0 ≡ n = omega arith in rw e
take-append_ge zero (c ∷ s) t h = absurd (omega arith)
take-append_ge (suc n) (c ∷ s) t h =
    let e : suc n - suc (length s) ≡ n - length s = omega arith in
    rw e (ap (◌∷◌ c) (take-append_ge n s t (omega arith)))

-- What `receive` keeps of a read: the part that still fits.
room-take :
    (n : ℕ) (s u : Bytes)
    → length s ≤ n
    → take (if ltb n (length s + length u) then n - length s else length u) u
      ≡ take (n - length s) u
room-take n s u h = elim (Bool-cases (ltb n (length s + length u))) [
  | inl e ↦ rw e
  | inr e ↦
      rw e (take-le (length u) u (omega arith) ∙ sym (take-le (n - length s) u (ground arith)))
]

-- A stream keeps the first `n` of the bytes that arrived, `t`.
receive-bytes :
    (n : ℕ) (s : Stream) (t u : Bytes)
    → s.kept ≡ take n t
    → (receive n (bytes u) s).kept ≡ take n (t ++ u)
unfolding receive
receive-bytes n s t u h = elim (Bool-cases (ltb (length s.kept) n)) [
  | inl short ↦
      let whole : s.kept ≡ t =
        h
        ∙ take-le n t
            (omega (arith, ltb→lt (length s.kept) n short, ap length h, length-take n t)) in
      let fits : length s.kept ≤ n = omega (arith, ltb→lt (length s.kept) n short) in
      rw short (
        ap (λ v. s.kept ++ v) (room-take n s.kept u fits)
        ∙ sym (take-append_ge n s.kept u fits)
        ∙ ap (λ v. take n (v ++ u)) whole)
  | inr full ↦ rw full (h ∙ sym (take-append_le n t u (full-le full)))
]
  where
    full-le : ltb (length s.kept) n ≡ false → n ≤ length t
    full-le e = ground (arith, ap length h, length-take n t)

-- One turn of one stream.
abbrev pub Tracks : ℕ → Stream → Bytes → Read → Type 0
Tracks n s t r =
    (u : Bytes) × ((receive_open n r s).kept ≡ take n (t ++ u))
    × ((rs : List Read)
        → delivered s.is_open (r ∷ rs) ≡ u ++ delivered (receive_open n r s).is_open rs)

pub receive-is_open : (n : ℕ) (s : Stream) (u : Bytes) → (receive n (bytes u) s).is_open ≡ s.is_open
unfolding receive
receive-is_open n s u = elim (Bool-cases (ltb (length s.kept) n)) [ inl e ↦ rw e | inr e ↦ rw e ]

nothing_new : (n : ℕ) (k t : Bytes) → k ≡ take n t → k ≡ take n (t ++ [])
nothing_new n k t h = h ∙ ap (take n) (sym (append-nil t))

pub receive_open-Tracks :
    (n : ℕ) (k t : Bytes) (o : Bool) (r : Read)
    → k ≡ take n t
    → Tracks n (record { kept = k; is_open = o }) t r
receive_open-Tracks n k t false r h = unfold receive_open in ([], nothing_new n k t h, λ rs. refl)
receive_open-Tracks n k t true idle h = unfold receive_open in ([], nothing_new n k t h, λ rs. refl)
receive_open-Tracks n k t true eof h = unfold receive_open in ([], nothing_new n k t h, λ rs. refl)
receive_open-Tracks n k t true (bytes u) h = (
  u,
  open_step ∙ receive-bytes n s t u h,
  λ rs. ap (λ o. u ++ delivered o rs) (sym (receive-is_open n s u) ∙ sym open_flag),
)
  where
    s : Stream
    s = record { kept = k; is_open = true }

    open_step : (receive_open n (bytes u) s).kept ≡ (receive n (bytes u) s).kept
    open_step = unfold receive_open in refl

    open_flag : (receive_open n (bytes u) s).is_open ≡ (receive n (bytes u) s).is_open
    open_flag = unfold receive_open in refl
