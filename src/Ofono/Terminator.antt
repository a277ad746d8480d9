-- ===== src/Ofono/Terminator.antt =====
-- The argument that `ofono_send_at` of src/ofono.c makes of a command.
use cellmgr.Base.{
  ℕ, zero, suc, ◌-◌, ◌≤◌, true, false, [], ◌∷◌, ◌++◌, ◌≡◌, ◌⊎◌, refl, inl, inr, arith,
  if◌then◌else◌, Bool-cases, Bytes, codes, length, get_or, take, length-append, take-le,
  take-append_le,
}
use cellmgr.Libc.Text.{truncate}
use cellmgr.Ofono.Send.{has_terminator, at_argument}

get_or-append : (s : Bytes) (i c : ℕ) → i ≡ length s → get_or (s ++ c ∷ []) i 0 ≡ c
get_or-append [] zero c e = refl
get_or-append [] (suc i) c e = absurd (omega arith)
get_or-append (x ∷ s) zero c e = absurd (omega arith)
get_or-append (x ∷ s) (suc i) c e = get_or-append s i c (omega arith)

-- A command with a carriage return behind it is terminated.
has_terminator-append : (cmd : Bytes) → has_terminator (cmd ++ 13 ∷ []) ≡ true
unfolding has_terminator
has_terminator-append cmd =
    ground (arith, length-append cmd (13 ∷ []), get_or-append cmd (length (cmd ++ 13 ∷ []) - 1) 13)

-- What goes to the modem behind `string:`: the command itself if it is terminated, otherwise the
-- command with one carriage return.
abbrev Terminates : Bytes → Bytes → Type 0
Terminates cmd sent =
    (has_terminator sent ≡ true)
    × (((has_terminator cmd ≡ true) × (sent ≡ cmd))
        ⊎ ((has_terminator cmd ≡ false) × (sent ≡ cmd ++ 13 ∷ [])))

at_argument_lem :
    (cmd : Bytes)
    → at_argument cmd
      ≡ truncate 1024 (
          if has_terminator cmd
          then codes "string:" ++ cmd
          else codes "string:" ++ (cmd ++ 13 ∷ []))
at_argument_lem cmd = unfold at_argument in refl

-- A command of 1015 bytes at most goes out whole and terminated, once.
at_argument-Terminates :
    (cmd : Bytes)
    → length cmd ≤ 1015
    → (sent : Bytes) × (at_argument cmd ≡ codes "string:" ++ sent) × Terminates cmd sent
at_argument-Terminates cmd h = elim (Bool-cases (has_terminator cmd)) [
  | inl e ↦ (cmd, rw (at_argument_lem, e, take-le 1016 cmd (omega arith)), (e, inl (e, refl)))
  | inr e ↦ (
    cmd ++ 13 ∷ [],
    rw (
      at_argument_lem,
      e,
      take-le 1016 (cmd ++ 13 ∷ []) (omega (arith, length-append cmd (13 ∷ []))),
    ),
    (has_terminator-append cmd, inr (e, refl)),
  )
]

-- Of a longer command what follows the first 1016 bytes is cut off, and no terminator is added.
pub at_argument_cut :
    (cmd : Bytes) → 1016 ≤ length cmd → at_argument cmd ≡ codes "string:" ++ take 1016 cmd
at_argument_cut cmd h = elim (Bool-cases (has_terminator cmd)) [
  | inl e ↦ rw (at_argument_lem, e)
  | inr e ↦ rw (at_argument_lem, e, take-append_le 1016 cmd (13 ∷ []) h)
]
