-- ===== src/Libc/Fscan.antt =====
-- `fscanf` and `sscanf` of one directive, on what is still unread, for `%ws`, `%ld` and `%llu`: the
-- value and what is unread behind it, none where the directive fails. A failure ends the reading in
-- every place that the program scans.
use cellmgr.Base.{
  ℕ, zero, suc, ◌-◌, ◌%◌, ◌<◌, min, Bool, true, false, not, List, [], ◌∷◌, ◌++◌, Option, none, some,
  ◌≡◌, ◌≤◌, refl, ap, leb, take, take-le, drop-length-append, ◌∙◌, arith, ltb, ◌==◌, if◌then◌else◌,
  Bytes, length, All, append_assoc,
}
use cellmgr.Base.Int.{ℤ, pos}
use cellmgr.Libc.Text.{isspace, isdigit, skip_while}
use cellmgr.Libc.Number.{
  value, strtol_signed, show_nat, StopsNumber, BeginsNumber, value-show_nat, show_nat-BeginsNumber,
  show_nat-All,
}
use cellmgr.Libc.Scan.{read_signed, read_run, word_run}

-- `%ws`
unfoldable pub scan_word : ℕ → Bytes → Option (Bytes × Bytes)
unfolding read_run isspace skip_while
scan_word width s = read_run width (λ c. not (isspace c)) (skip_while isspace s)

-- `%ld`
unfoldable pub scan_long : Bytes → Option (ℤ × Bytes)
unfolding read_signed isspace skip_while strtol_signed
scan_long s =
    let t = skip_while isspace s in
    elim (read_signed t) [ none ↦ none | some rest ↦ some (strtol_signed t, rest) ]

-- One more than the greatest `unsigned long long`.
abbrev pub word64 : ℕ
word64 = 18_446_744_073_709_551_616

-- `strtoull` saturates, and negates in 64 bits.
abbrev ull_of : Bool → ℕ → ℕ
ull_of true n = if ltb n 18_446_744_073_709_551_616 then (word64 - n) % word64 else word64 - 1
ull_of false n = min n 18_446_744_073_709_551_615

unfoldable pub strtoull_signed : Bytes → ℕ
unfolding value
strtoull_signed [] = 0
strtoull_signed (c ∷ s) =
    if c == b'-'
    then ull_of true (value 0 s)
    else if c == b'+'
    then ull_of false (value 0 s)
    else ull_of false (value 0 (c ∷ s))

-- `%llu`
unfoldable pub scan_ull : Bytes → Option (ℕ × Bytes)
unfolding read_signed isspace skip_while strtoull_signed
scan_ull s =
    let t = skip_while isspace s in
    elim (read_signed t) [ none ↦ none | some rest ↦ some (strtoull_signed t, rest) ]

-- `%llu` again and again: the values until one fails.
unfoldable pub scan_ulls : ℕ → Bytes → List ℕ
unfolding scan_ull
scan_ulls zero s = []
scan_ulls (suc n) s = elim (scan_ull s) [ none ↦ [] | some (v, rest) ↦ v ∷ scan_ulls n rest ]

-- Numbers with blanks in front of each, as the kernel prints them.
abbrev pub blanks : ℕ → Bytes
blanks zero = []
blanks (suc n) = b' ' ∷ blanks n

abbrev pub spaced : List (ℕ × ℕ) → Bytes
spaced [] = []
spaced ((gap, v) ∷ rest) = b' ' ∷ (blanks gap ++ (show_nat v ++ spaced rest))

abbrev pub counts_of : List (ℕ × ℕ) → List ℕ
counts_of [] = []
counts_of ((gap, v) ∷ rest) = v ∷ counts_of rest

pub skip-blanks : (n : ℕ) (s : Bytes) → skip_while isspace (blanks n ++ s) ≡ skip_while isspace s
unfolding skip_while isspace
skip-blanks zero s = refl
skip-blanks (suc n) s = skip-blanks n s

digit-skip : (s : Bytes) → BeginsNumber s → skip_while isspace s ≡ s
unfolding skip_while isspace isdigit
digit-skip [] h = cc
digit-skip (c ∷ s) h = ground arith

skip-digits :
    (a s : Bytes) → All (λ c. isdigit c ≡ true) a → StopsNumber s → skip_while isdigit (a ++ s) ≡ s
unfolding skip_while
skip-digits [] [] h k = refl
skip-digits [] (c ∷ s) h k = rw k
skip-digits (x ∷ a) s h k = rw (h.0) (skip-digits a s h.1 k)

digit-read_signed : (s : Bytes) → BeginsNumber s → read_signed s ≡ some (skip_while isdigit s)
unfolding read_signed isdigit
digit-read_signed [] h = cc
digit-read_signed (c ∷ s) h = ground arith

digit-strtoull :
    (s : Bytes) → BeginsNumber s → strtoull_signed s ≡ min (value 0 s) 18_446_744_073_709_551_615
unfolding strtoull_signed isdigit
digit-strtoull [] h = cc
digit-strtoull (c ∷ s) h = ground arith

scan_ull_lem :
    (s t rest : Bytes)
    → skip_while isspace s ≡ t
    → read_signed t ≡ some rest
    → scan_ull s ≡ some (strtoull_signed t, rest)
unfolding scan_ull
scan_ull_lem s t rest e e' = rw (scan_ull, e, e') (ap (λ u. some (strtoull_signed u, rest)) e)

-- A printed number of 64 bits is read back, behind any number of blanks.
pub scan_ull-show_nat :
    (gap n : ℕ) (s : Bytes)
    → n < word64
    → StopsNumber s
    → scan_ull (blanks gap ++ (show_nat n ++ s)) ≡ some (n, s)
scan_ull-show_nat gap n s h k =
    let t = show_nat n ++ s in
    let starts = show_nat-BeginsNumber n s in
    let fits : min n 18_446_744_073_709_551_615 ≡ n = omega arith in
    let number : strtoull_signed t ≡ n = rw (digit-strtoull t starts, value-show_nat n s k, fits) in
    let tail : read_signed t ≡ some s =
      rw (digit-read_signed t starts, skip-digits (show_nat n) s (show_nat-All n) k) in
    rw (scan_ull_lem (blanks gap ++ t) t s (skip-blanks gap t ∙ digit-skip t starts) tail, number)

-- Numbers of 64 bits.
abbrev pub AreWords : List (ℕ × ℕ) → Type 0
AreWords [] = Unit
AreWords ((gap, v) ∷ rest) = (v < word64) × AreWords rest

spaced-StopsNumber : (vs : List (ℕ × ℕ)) (s : Bytes) → StopsNumber s → StopsNumber (spaced vs ++ s)
unfolding isdigit
spaced-StopsNumber [] s k = k
spaced-StopsNumber (v ∷ vs) s k = refl

spaced_step :
    (gap v : ℕ) (vs : List (ℕ × ℕ)) (s : Bytes)
    → spaced ((gap, v) ∷ vs) ++ s ≡ blanks (suc gap) ++ (show_nat v ++ (spaced vs ++ s))
spaced_step gap v vs s = ap (◌∷◌ b' ') (
    append_assoc (blanks gap) (show_nat v ++ spaced vs) s
    ∙ ap (λ t. blanks gap ++ t) (append_assoc (show_nat v) (spaced vs) s))

scan_ulls_step :
    (n v : ℕ) (s rest : Bytes)
    → scan_ull s ≡ some (v, rest)
    → scan_ulls (suc n) s ≡ v ∷ scan_ulls n rest
unfolding scan_ulls
scan_ulls_step n v s rest e = rw (scan_ulls, e)

-- The first numbers of a row are read back, whatever follows that is not a digit.
pub scan_ulls-spaced :
    (vs : List (ℕ × ℕ)) (s : Bytes)
    → AreWords vs
    → StopsNumber s
    → scan_ulls (length vs) (spaced vs ++ s) ≡ counts_of vs
scan_ulls-spaced [] s h k = unfold scan_ulls in refl
scan_ulls-spaced ((gap, v) ∷ vs) s h k = rw (spaced_step gap v vs s) (
    scan_ulls_step (length vs) v _ _
      (scan_ull-show_nat (suc gap) v (spaced vs ++ s) h.0 (spaced-StopsNumber vs s k))
    ∙ ap (◌∷◌ v) (scan_ulls-spaced vs s h.1 k))

-- A word that ends within the width is read whole, behind blanks.
pub scan_word-word :
    (width : ℕ) (s0 a : Bytes) (c : ℕ) (s : Bytes)
    → skip_while isspace s0 ≡ a ++ c ∷ s
    → All (λ b. isspace b ≡ false) a
    → 0 < length a
    → length a ≤ width
    → isspace c ≡ true
    → scan_word width s0 ≡ some (a, c ∷ s)
unfolding scan_word read_run
scan_word-word width s0 a c s starts h k l e =
    let all : take width a ≡ a = take-le width a l in
    let some_read : leb (length a) 0 ≡ false = ground arith in
    rw (
      scan_word,
      starts,
      read_run,
      word_run a c s h e,
      all,
      some_read,
      drop-length-append (length a) a (c ∷ s) refl,
    )

digit-strtol :
    (s : Bytes) → BeginsNumber s → strtol_signed s ≡ pos (min (value 0 s) 9_223_372_036_854_775_807)
unfolding strtol_signed isdigit
digit-strtol [] h = cc
digit-strtol (c ∷ s) h = ground arith

scan_long_lem :
    (s t rest : Bytes)
    → skip_while isspace s ≡ t
    → read_signed t ≡ some rest
    → scan_long s ≡ some (strtol_signed t, rest)
unfolding scan_long
scan_long_lem s t rest e e' = rw (scan_long, e, e') (ap (λ u. some (strtol_signed u, rest)) e)

-- A printed number of 63 bits is read back as a `long`.
pub scan_long-show_nat :
    (gap n : ℕ) (s : Bytes)
    → n < 9_223_372_036_854_775_808
    → StopsNumber s
    → scan_long (blanks gap ++ (show_nat n ++ s)) ≡ some (pos n, s)
scan_long-show_nat gap n s h k =
    let t = show_nat n ++ s in
    let starts = show_nat-BeginsNumber n s in
    let fits : min n 9_223_372_036_854_775_807 ≡ n = omega arith in
    let number : strtol_signed t ≡ pos n = rw (digit-strtol t starts, value-show_nat n s k, fits) in
    let tail : read_signed t ≡ some s =
      rw (digit-read_signed t starts, skip-digits (show_nat n) s (show_nat-All n) k) in
    rw (scan_long_lem (blanks gap ++ t) t s (skip-blanks gap t ∙ digit-skip t starts) tail, number)
