-- ===== src/Libc/Scan.antt =====
-- `sscanf` for the directives that the program uses.
use cellmgr.Base.{
  ℕ, zero, suc, Bool, not, List, [], ◌∷◌, Option, none, some, leb, ◌==◌, if◌then◌else◌, Bytes, take,
  drop, length, ◌<◌, ◌≤◌, ◌≡◌, false, true, All, ◌++◌, ap, refl, arith, take-le, drop-length-append,
}
use cellmgr.Base.Int.{ℤ, to_int}
use cellmgr.Libc.Number.{strtol_signed, begins_digit}
use cellmgr.Libc.Text.{isspace, isdigit, skip_while, take_while}

-- `until w b` is `%w[^b]`, and `word w` is `%ws`.
pub data Directive : Type 0 where
  space int : Directive
  lit : ℕ → Directive
  until : ℕ → ℕ → Directive
  word : ℕ → Directive

-- A converted item.
pub data Item : Type 0 where
  num : ℤ → Item
  text : Bytes → Item

-- The bytes behind the digits.
abbrev skip_digits : Bytes → Bytes
skip_digits = skip_while isdigit

-- The unread bytes behind an optional sign and the digits, which must be there.
unfoldable pub read_signed : Bytes → Option Bytes
unfolding isdigit skip_while
read_signed [] = none
read_signed (c ∷ s) =
    if c == b'-'
    then (if begins_digit s then some (skip_digits s) else none)
    else if c == b'+'
    then (if begins_digit s then some (skip_digits s) else none)
    else if isdigit c
    then some (skip_digits s)
    else none

-- A run of `width` bytes at most that pass `test`, and what follows it; the run is not empty.
unfoldable pub read_run : ℕ → (ℕ → Bool) → Bytes → Option (Bytes × Bytes)
unfolding take_while
read_run width test s =
    let run = take width (take_while test s) in
    if leb (length run) 0 then none else some (run, drop (length run) s)

-- The items converted before the first directive that fails.
unfoldable pub sscanf : List Directive → Bytes → List Item
unfolding read_signed read_run isspace isdigit skip_while take_while strtol_signed to_int
sscanf [] s = []
sscanf (space ∷ ds) s = sscanf ds (skip_while isspace s)
sscanf (lit b ∷ ds) [] = []
sscanf (lit b ∷ ds) (c ∷ s) = if c == b then sscanf ds s else []
sscanf (int ∷ ds) s =
    let t = skip_while isspace s in
    elim (read_signed t) [ none ↦ [] | some rest ↦ num (to_int (strtol_signed t)) ∷ sscanf ds rest ]
sscanf (until width b ∷ ds) s = elim (read_run width (λ c. not (c == b)) s) [
  | none ↦ []
  | some (t, rest) ↦ text t ∷ sscanf ds rest
]
sscanf (word width ∷ ds) s = elim (read_run width (λ c. not (isspace c)) (skip_while isspace s)) [
  | none ↦ []
  | some (t, rest) ↦ text t ∷ sscanf ds rest
]

-- What item `i` leaves in the variable that holds `d` before the call.
abbrev pub int_at : List Item → ℕ → ℤ → ℤ
int_at [] i d = d
int_at (num v ∷ items) zero d = v
int_at (text t ∷ items) zero d = d
int_at (_ ∷ items) (suc i) d = int_at items i d

abbrev pub text_at : List Item → ℕ → Bytes → Bytes
text_at [] i d = d
text_at (num v ∷ items) zero d = d
text_at (text t ∷ items) zero d = t
text_at (_ ∷ items) (suc i) d = text_at items i d

-- What a word's run is in front of a space.
pub word_run :
    (a : Bytes) (c : ℕ) (s : Bytes)
    → All (λ b. isspace b ≡ false) a
    → isspace c ≡ true
    → take_while (λ b. not (isspace b)) (a ++ c ∷ s) ≡ a
unfolding take_while
word_run [] c s h e = rw e
word_run (x ∷ a) c s h e = rw (h.0) (ap (◌∷◌ x) (word_run a c s h.1 e))

-- A word that ends within the width is read whole.
pub sscanf_word :
    (width : ℕ) (ds : List Directive) (a : Bytes) (c : ℕ) (s : Bytes)
    → All (λ b. isspace b ≡ false) a
    → 0 < length a
    → length a ≤ width
    → isspace c ≡ true
    → sscanf (word width ∷ ds) (a ++ c ∷ s) ≡ text a ∷ sscanf ds (c ∷ s)
unfolding sscanf read_run
sscanf_word width ds [] c s h k l e = absurd (omega arith)
sscanf_word width ds (x ∷ a) c s h k l e =
    let starts : skip_while isspace (x ∷ (a ++ c ∷ s)) ≡ x ∷ (a ++ c ∷ s) = rw (skip_while, h.0) in
    let run : take_while (λ b. not (isspace b)) (x ∷ (a ++ c ∷ s)) ≡ x ∷ a =
      word_run (x ∷ a) c s h e in
    let all : take width (x ∷ a) ≡ x ∷ a = take-le width (x ∷ a) l in
    let some_read : leb (length (x ∷ a)) 0 ≡ false = ground arith in
    rw (sscanf, read_run, starts, run, all, some_read, drop-length-append (length a) a (c ∷ s) refl)
