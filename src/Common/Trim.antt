-- ===== src/Common/Trim.antt =====
-- `trim_in_place` of src/common.c, on a string that is not NULL.
use cellmgr.Base.{
  ℕ, zero, suc, ◌≤◌, ◌<◌, Bool, true, false, ◌||◌, [], ◌∷◌, ◌++◌, ◌≡◌, inl, inr, refl, sym, ap, ◌∙◌,
  arith, ◌==◌, Bool-cases, Bytes, length, get_or, take, drop, take-le, take-append-drop, All,
}
use cellmgr.Libc.Text.{skip_while, take_while, take_while-append-skip_while, take_while-All}

unfoldable pub is_blank : ℕ → Bool
is_blank c = c == b' ' || c == b'\t' || c == b'\r' || c == b'\n'

-- The loop from the end: the first `len` bytes of `s` are left.
unfoldable pub trim_end : ℕ → Bytes → Bytes
trim_end zero s = []
trim_end (suc len) s = elim (is_blank (get_or s len 0)) [
  | true ↦ trim_end len s
  | false ↦ take (suc len) s
]

unfoldable pub trim_in_place : Bytes → Bytes
unfolding trim_end skip_while is_blank
trim_in_place s = let start = skip_while is_blank s in trim_end (length start) start

abbrev pub first_is_blank : Bytes → Bool
first_is_blank [] = false
first_is_blank (c ∷ s) = is_blank c

abbrev pub last_is_blank : Bytes → Bool
last_is_blank [] = false
last_is_blank (c ∷ s) = is_blank (get_or (c ∷ s) (length s) 0)

abbrev pub AreBlank : Bytes → Type 0
AreBlank = All (λ c. is_blank c ≡ true)

-- `t` is what is left of `s` when the blanks at both ends are taken off.
pub record Trims (s t : Bytes) : Type 0 where
  pub before : Bytes
  pub after : Bytes
  pub splits : s ≡ before ++ (t ++ after)
  pub before_blank : AreBlank before
  pub after_blank : AreBlank after
  pub first_kept : first_is_blank t ≡ false
  pub last_kept : last_is_blank t ≡ false

-- What the end loop takes off.
trimmed_end : ℕ → Bytes → Bytes
trimmed_end zero s = s
trimmed_end (suc len) s = elim (is_blank (get_or s len 0)) [
  | true ↦ trimmed_end len s
  | false ↦ drop (suc len) s
]

trim_end-append : (len : ℕ) (s : Bytes) → trim_end len s ++ trimmed_end len s ≡ s
unfolding trim_end trimmed_end
trim_end-append zero s = refl
trim_end-append (suc len) s = ground (arith, trim_end-append len s, take-append-drop (suc len) s)

-- A blank in front of blanks.
drop-AreBlank :
    (len : ℕ) (s : Bytes)
    → len < length s
    → is_blank (get_or s len 0) ≡ true
    → AreBlank (drop (suc len) s)
    → AreBlank (drop len s)
drop-AreBlank zero [] h e k = tt
drop-AreBlank zero (c ∷ s) h e k = (e, k)
drop-AreBlank (suc len) [] h e k = tt
drop-AreBlank (suc len) (c ∷ s) h e k = drop-AreBlank len s (omega arith) e k

trimmed_end-AreBlank :
    (len : ℕ) (s : Bytes) → len ≤ length s → AreBlank (drop len s) → AreBlank (trimmed_end len s)
unfolding trimmed_end
trimmed_end-AreBlank zero s h k = k
trimmed_end-AreBlank (suc len) s h k = elim (Bool-cases (is_blank (get_or s len 0))) [
  | inl e ↦
      rw (e, trimmed_end)
        (trimmed_end-AreBlank len s (omega arith) (drop-AreBlank len s (omega arith) e k))
  | inr e ↦ rw (e, trimmed_end) k
]

drop-length : (s : Bytes) → drop (length s) s ≡ []
drop-length [] = refl
drop-length (c ∷ s) = drop-length s

take-suc-last :
    (len : ℕ) (s : Bytes)
    → len < length s
    → last_is_blank (take (suc len) s) ≡ is_blank (get_or s len 0)
take-suc-last zero [] h = absurd (omega arith)
take-suc-last zero (c ∷ s) h = refl
take-suc-last (suc len) [] h = absurd (omega arith)
take-suc-last (suc len) (c ∷ []) h = absurd (omega arith)
take-suc-last (suc len) (c ∷ d ∷ s) h = take-suc-last len (d ∷ s) (omega arith)

trim_end-last : (len : ℕ) (s : Bytes) → len ≤ length s → last_is_blank (trim_end len s) ≡ false
unfolding trim_end
trim_end-last zero s h = refl
trim_end-last (suc len) s h = elim (Bool-cases (is_blank (get_or s len 0))) [
  | inl e ↦ rw (e, trim_end) (trim_end-last len s (omega arith))
  | inr e ↦ rw (e, trim_end) (take-suc-last len s (omega arith) ∙ e)
]

-- The end loop keeps the first byte, if that is not blank.
trim_end-first :
    (len : ℕ) (s : Bytes) → first_is_blank s ≡ false → first_is_blank (trim_end len s) ≡ false
unfolding trim_end
trim_end-first zero s h = refl
trim_end-first (suc len) [] h = elim (Bool-cases (is_blank 0)) [
  | inl e ↦ rw (e, trim_end) (trim_end-first len [] h)
  | inr e ↦ rw (e, trim_end) refl
]
trim_end-first (suc len) (c ∷ s) h = elim (Bool-cases (is_blank (get_or (c ∷ s) len 0))) [
  | inl e ↦ rw (e, trim_end) (trim_end-first len (c ∷ s) h)
  | inr e ↦ rw (e, trim_end) h
]

skip_while-first : (s : Bytes) → first_is_blank (skip_while is_blank s) ≡ false
unfolding skip_while
skip_while-first [] = refl
skip_while-first (c ∷ s) = elim (Bool-cases (is_blank c)) [
  | inl e ↦ rw e (skip_while-first s)
  | inr e ↦ rw e e
]

-- `trim_in_place` takes off blanks at both ends and nothing else, and leaves none there.
pub trim_in_place-Trims : (s : Bytes) → Trims s (trim_in_place s)
trim_in_place-Trims s = record {
  before = take_while is_blank s;
  after = trimmed_end (length start) start;
  splits =
      sym (ap (λ t. take_while is_blank s ++ t) shape ∙ take_while-append-skip_while is_blank s);
  before_blank = take_while-All is_blank s;
  after_blank = trimmed_end-AreBlank (length start) start (omega arith) (rw drop-length tt);
  first_kept = unfold trim_in_place in trim_end-first (length start) start (skip_while-first s);
  last_kept = unfold trim_in_place in trim_end-last (length start) start (omega arith);
}
  where
    start : Bytes
    start = skip_while is_blank s

    shape : trim_in_place s ++ trimmed_end (length start) start ≡ start
    shape = unfold trim_in_place in trim_end-append (length start) start

pub trim_in_place_lem :
    (s : Bytes)
    → trim_in_place s ≡ trim_end (length (skip_while is_blank s)) (skip_while is_blank s)
trim_in_place_lem s = unfold trim_in_place in refl

skip_while-kept : (c : ℕ) (s : Bytes) → is_blank c ≡ false → skip_while is_blank (c ∷ s) ≡ c ∷ s
unfolding skip_while
skip_while-kept c s e = rw e

trim_end_stops :
    (len : ℕ) (s : Bytes)
    → is_blank (get_or s len 0) ≡ false
    → trim_end (suc len) s ≡ take (suc len) s
unfolding trim_end
trim_end_stops len s e = rw (e, trim_end)

trim_end-kept :
    (c : ℕ) (s : Bytes) → last_is_blank (c ∷ s) ≡ false → trim_end (suc (length s)) (c ∷ s) ≡ c ∷ s
trim_end-kept c s e =
    trim_end_stops (length s) (c ∷ s) e ∙ take-le (suc (length s)) (c ∷ s) (omega arith)

-- A string with no blank at either end is left as it is.
pub trim_in_place-kept :
    (s : Bytes) → first_is_blank s ≡ false → last_is_blank s ≡ false → trim_in_place s ≡ s
trim_in_place-kept [] f l = unfold trim_in_place in refl
trim_in_place-kept (c ∷ s) f l = rw (trim_in_place_lem, skip_while-kept c s f) (trim_end-kept c s l)

pub trim_in_place_idem : (s : Bytes) → trim_in_place (trim_in_place s) ≡ trim_in_place s
trim_in_place_idem s =
    let t = trim_in_place-Trims s in trim_in_place-kept (trim_in_place s) t.first_kept t.last_kept
