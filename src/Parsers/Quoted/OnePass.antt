-- ===== src/Parsers/Quoted/OnePass.antt =====
-- `find_line_prefix` of src/parsers.c against a reader that takes one byte after the other.
use cellmgr.Base.{
  ℕ, zero, suc, ◌≤◌, ◌<◌, Bool, true, false, ◌||◌, ◌&&◌, [], ◌∷◌, Option, none, some, ◌≡◌, refl,
  sym, ap, ◌∙◌, arith, inl, inr, ◌==◌, if◌then◌else◌, Bool-cases, Option-cases, Bytes, length, drop,
  length-append,
}
use cellmgr.Libc.Text.{has_prefix, strchr, skip_while, take_while, take_while-append-skip_while}
use cellmgr.Parsers.Quoted.{is_line_end, line_prefix_from, find_line_prefix}
use cellmgr.Parsers.Quoted.Lines.{strchr_sound, line_prefix_step}

-- `fresh`: no byte of the line but line ends was read.
unfoldable pub first_line : Bool → Bytes → Bytes → Option Bytes
first_line fresh prefix [] = none
first_line fresh prefix (c ∷ s) =
    let rest = first_line (c == 10 || (fresh && c == 13)) prefix s in
    if fresh && has_prefix prefix (c ∷ s) then some (drop (length prefix) (c ∷ s)) else rest

-- Line ends at the start of a line are no part of a prefix that begins with another byte.
first_line-skip_while :
    (x : ℕ) (prefix s : Bytes)
    → is_line_end x ≡ false
    → first_line true (x ∷ prefix) s ≡ first_line true (x ∷ prefix) (skip_while is_line_end s)
unfolding first_line skip_while has_prefix
first_line-skip_while x prefix [] h = refl
first_line-skip_while x prefix (c ∷ s) h = ground (arith, h, first_line-skip_while x prefix s h)

-- Inside of a line the reader goes on behind the next line feed.
first_line-strchr :
    (prefix s : Bytes)
    → first_line false prefix s
      ≡ (elim (strchr s 10) [ none ↦ none | some q ↦ first_line true prefix (drop 1 q) ])
unfolding first_line strchr
first_line-strchr prefix [] = refl
first_line-strchr prefix (c ∷ s) = elim (Bool-cases (c == 10)) [
  | inl e ↦ rw e refl
  | inr e ↦ rw e (first_line-strchr prefix s)
]

first_line_inside :
    (c : ℕ) (prefix s : Bytes)
    → is_line_end c ≡ false
    → has_prefix prefix (c ∷ s) ≡ false
    → first_line true prefix (c ∷ s) ≡ first_line false prefix s
unfolding first_line
first_line_inside c prefix s h k = ground (arith, h, k)

first_line_here :
    (c : ℕ) (prefix s : Bytes)
    → has_prefix prefix (c ∷ s) ≡ true
    → first_line true prefix (c ∷ s) ≡ some (drop (length prefix) (c ∷ s))
unfolding first_line
first_line_here c prefix s k = rw k refl

strchr_skip_byte : (c : ℕ) (s : Bytes) → is_line_end c ≡ false → strchr (c ∷ s) 10 ≡ strchr s 10
unfolding strchr
strchr_skip_byte c s h = ground (arith, h)

-- At the first byte of a line's text.
first_line_other :
    (c : ℕ) (prefix s : Bytes)
    → is_line_end c ≡ false
    → has_prefix prefix (c ∷ s) ≡ false
    → first_line true prefix (c ∷ s)
      ≡ (elim (strchr (c ∷ s) 10) [ none ↦ none | some q ↦ first_line true prefix (drop 1 q) ])
first_line_other c prefix s h k =
    rw (first_line_inside c prefix s h k, strchr_skip_byte c s h) (first_line-strchr prefix s)

abbrev begins_with_end : Bytes → Bool
begins_with_end [] = false
begins_with_end (c ∷ s) = is_line_end c

begins_with_end-skip_while : (s : Bytes) → begins_with_end (skip_while is_line_end s) ≡ false
unfolding skip_while
begins_with_end-skip_while [] = refl
begins_with_end-skip_while (c ∷ s) = elim (Bool-cases (is_line_end c)) [
  | inl e ↦ rw e (begins_with_end-skip_while s)
  | inr e ↦ rw e e
]

-- One line, where the lines behind it are read alike.
line-first_line :
    (fuel x : ℕ) (prefix p : Bytes)
    → begins_with_end p ≡ false
    → ((q : Bytes)
        → strchr p 10 ≡ some q
        → line_prefix_from fuel (drop 1 q) (x ∷ prefix) ≡ first_line true (x ∷ prefix) (drop 1 q))
    → (if has_prefix (x ∷ prefix) p
        then some (drop (length (x ∷ prefix)) p)
        else elim (strchr p 10) [
          | none ↦ none
          | some q ↦ line_prefix_from fuel (drop 1 q) (x ∷ prefix)
        ])
      ≡ first_line true (x ∷ prefix) p
line-first_line fuel x prefix [] h next =
    unfold has_prefix in unfold strchr in unfold first_line in refl
line-first_line fuel x prefix (c ∷ s) h next = elim (Bool-cases (has_prefix (x ∷ prefix) (c ∷ s))) [
  | inl e ↦ rw e (sym (first_line_here c (x ∷ prefix) s e))
  | inr e ↦ elim (Option-cases (strchr (c ∷ s) 10)) [
    | inl f ↦ rw (e, f, first_line_other c (x ∷ prefix) s h e, f)
    | inr (q, f) ↦ rw (e, f, first_line_other c (x ∷ prefix) s h e, f) (next q f)
  ]
]

length-skip_while : (s : Bytes) → length (skip_while is_line_end s) ≤ length s
length-skip_while s = omega (
  arith,
  ap length (take_while-append-skip_while is_line_end s),
  length-append (take_while is_line_end s) (skip_while is_line_end s),
)

length-strchr : (s q : Bytes) → strchr s 10 ≡ some q → length (drop 1 q) < length s
length-strchr s q h =
    let (t, same) = strchr_sound s q 10 h in
    omega (arith, ap length same, length-append t (10 ∷ drop 1 q))

line_prefix_from-first_line :
    (fuel x : ℕ) (prefix raw : Bytes)
    → is_line_end x ≡ false
    → length raw < fuel
    → line_prefix_from fuel raw (x ∷ prefix) ≡ first_line true (x ∷ prefix) raw
line_prefix_from-first_line zero x prefix raw h k = absurd (omega arith)
line_prefix_from-first_line (suc fuel) x prefix [] h k =
    unfold line_prefix_from in unfold first_line in refl
line_prefix_from-first_line (suc fuel) x prefix (c ∷ raw) h k =
    line_prefix_step fuel c raw (x ∷ prefix)
    ∙ line-first_line fuel x prefix (skip_while is_line_end (c ∷ raw))
        (begins_with_end-skip_while (c ∷ raw))
        (λ q e. line_prefix_from-first_line fuel x prefix (drop 1 q) h (
          omega (
            arith,
            length-strchr (skip_while is_line_end (c ∷ raw)) q e,
            length-skip_while (c ∷ raw),
          )))
    ∙ sym (first_line-skip_while x prefix (c ∷ raw) h)

-- For a prefix that begins with no line end, as all in the program do, the jumps from line to line
-- find what the reader of single bytes finds, and enough rounds are made.
pub find_line_prefix-first_line :
    (x : ℕ) (prefix raw : Bytes)
    → is_line_end x ≡ false
    → find_line_prefix raw (x ∷ prefix) ≡ first_line true (x ∷ prefix) raw
find_line_prefix-first_line x prefix raw h =
    unfold find_line_prefix in
    line_prefix_from-first_line (suc (length raw)) x prefix raw h (omega arith)
