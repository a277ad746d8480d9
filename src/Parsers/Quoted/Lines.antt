-- ===== src/Parsers/Quoted/Lines.antt =====
-- Where `find_line_prefix` of src/parsers.c stops.
use cellmgr.Base.{
  ℕ, zero, suc, Bool, true, [], ◌∷◌, ◌++◌, Option, none, some, ◌≡◌, refl, sym, ap, ◌∙◌, subst,
  arith, inl, inr, ◌==◌, if◌then◌else◌, Bool-cases, Option-cases, Bytes, length, drop, All,
  append_assoc, drop-length-append,
}
use cellmgr.Libc.Text.{
  has_prefix, has_prefix_sound, strchr, skip_while, take_while, take_while-append-skip_while,
  take_while-All,
}
use cellmgr.Parsers.Quoted.{is_line_end, line_prefix_from, find_line_prefix}

-- The text is empty, or its last byte ends a line.
abbrev pub ends_line : Bytes → Bool
ends_line [] = true
ends_line (c ∷ []) = is_line_end c
ends_line (c ∷ d ∷ s) = ends_line (d ∷ s)

-- What was found stands at the beginning of a line, behind the prefix.
abbrev pub FoundBehind : Bytes → Bytes → Option Bytes → Type 0
FoundBehind raw prefix none = Unit
FoundBehind raw prefix (some rest) =
    (before : Bytes) × (raw ≡ before ++ (prefix ++ rest)) × (ends_line before ≡ true)

ends_line-append :
    (a b : Bytes) → ends_line a ≡ true → ends_line b ≡ true → ends_line (a ++ b) ≡ true
ends_line-append [] b h k = k
ends_line-append (c ∷ []) [] h k = h
ends_line-append (c ∷ []) (d ∷ b) h k = k
ends_line-append (c ∷ d ∷ a) b h k = ends_line-append (d ∷ a) b h k

ends_line-All : (s : Bytes) → All (λ c. is_line_end c ≡ true) s → ends_line s ≡ true
ends_line-All [] h = refl
ends_line-All (c ∷ []) h = h.0
ends_line-All (c ∷ d ∷ s) h = ends_line-All (d ∷ s) h.1

ends_line-concat : (t : Bytes) → ends_line (t ++ 10 ∷ []) ≡ true
ends_line-concat [] = refl
ends_line-concat (c ∷ []) = refl
ends_line-concat (c ∷ d ∷ t) = ends_line-concat (d ∷ t)

pub strchr_sound :
    (s q : Bytes) (b : ℕ) → strchr s b ≡ some q → (t : Bytes) × (s ≡ t ++ b ∷ drop 1 q)
unfolding strchr
strchr_sound [] q b h = cc
strchr_sound (c ∷ s) q b h = elim (Bool-cases (c == b)) [
  | inl e ↦ ([], ground (arith, h, e))
  | inr e ↦ let (t, same) = strchr_sound s q b (rw e at h) in (c ∷ t, ap (◌∷◌ c) same)
]

FoundBehind-append :
    (a raw prefix : Bytes) (res : Option Bytes)
    → ends_line a ≡ true
    → FoundBehind raw prefix res
    → FoundBehind (a ++ raw) prefix res
FoundBehind-append a raw prefix none h f = tt
FoundBehind-append a raw prefix (some rest) h (before, same, ends) = (
  a ++ before,
  ap (λ t. a ++ t) same ∙ sym (append_assoc a before (prefix ++ rest)),
  ends_line-append a before h ends,
)

pub line_prefix_step :
    (fuel c : ℕ) (raw prefix : Bytes)
    → line_prefix_from (suc fuel) (c ∷ raw) prefix ≡ (
        if has_prefix prefix (skip_while is_line_end (c ∷ raw))
        then some (drop (length prefix) (skip_while is_line_end (c ∷ raw)))
        else elim (strchr (skip_while is_line_end (c ∷ raw)) 10) [
          | none ↦ none
          | some rest ↦ line_prefix_from fuel (drop 1 rest) prefix
        ])
line_prefix_step fuel c raw prefix = unfold line_prefix_from in refl

found_here : (p prefix : Bytes) → has_prefix prefix p ≡ true → p ≡ prefix ++ drop (length prefix) p
found_here p prefix h =
    let (rest, same) = has_prefix_sound prefix p h in
    same
    ∙ ap (λ t. prefix ++ t)
        (sym (drop-length-append (length prefix) prefix rest refl)
          ∙ ap (drop (length prefix)) (sym same))

line_prefix_from-FoundBehind :
    (fuel : ℕ) (raw prefix : Bytes) → FoundBehind raw prefix (line_prefix_from fuel raw prefix)
line_prefix_from-FoundBehind zero raw prefix = unfold line_prefix_from in tt
line_prefix_from-FoundBehind (suc fuel) [] prefix = unfold line_prefix_from in tt
line_prefix_from-FoundBehind (suc fuel) (c ∷ raw) prefix =
    elim (Bool-cases (has_prefix prefix (skip_while is_line_end (c ∷ raw)))) [
      | inl e ↦
          rw (line_prefix_step fuel c raw prefix, e)
            (
              take_while is_line_end (c ∷ raw),
              sym (take_while-append-skip_while is_line_end (c ∷ raw))
                  ∙ ap (λ t. take_while is_line_end (c ∷ raw) ++ t)
                      (found_here (skip_while is_line_end (c ∷ raw)) prefix e),
              run_ends,
            )
      | inr e ↦ elim (Option-cases (strchr (skip_while is_line_end (c ∷ raw)) 10)) [
        | inl f ↦ rw (line_prefix_step fuel c raw prefix, e, f) tt
        | inr (q, f) ↦
            let (t, same) = strchr_sound (skip_while is_line_end (c ∷ raw)) q 10 f in
            let later : FoundBehind (drop 1 q) prefix (line_prefix_from fuel (drop 1 q) prefix) =
              line_prefix_from-FoundBehind fuel (drop 1 q) prefix in
            rw (line_prefix_step fuel c raw prefix, e, f)
              (subst (λ s. FoundBehind s prefix (line_prefix_from fuel (drop 1 q) prefix))
                (append_assoc (take_while is_line_end (c ∷ raw)) (t ++ 10 ∷ []) (drop 1 q)
                  ∙ ap (λ s. take_while is_line_end (c ∷ raw) ++ s)
                      (append_assoc t (10 ∷ []) (drop 1 q) ∙ sym same)
                  ∙ take_while-append-skip_while is_line_end (c ∷ raw))
                (FoundBehind-append (take_while is_line_end (c ∷ raw) ++ (t ++ 10 ∷ [])) (drop 1 q)
                  prefix (line_prefix_from fuel (drop 1 q) prefix)
                  (ends_line-append (take_while is_line_end (c ∷ raw)) (t ++ 10 ∷ []) run_ends
                    (ends_line-concat t))
                  later))
      ]
    ]
  where
    run_ends : ends_line (take_while is_line_end (c ∷ raw)) ≡ true
    run_ends = ends_line-All _ (take_while-All is_line_end (c ∷ raw))

-- What `find_line_prefix` returns stands in the text behind the prefix, and the prefix stands at the
-- beginning of the text or behind the end of a line.
pub find_line_prefix-FoundBehind :
    (raw prefix : Bytes) → FoundBehind raw prefix (find_line_prefix raw prefix)
find_line_prefix-FoundBehind raw prefix =
    unfold find_line_prefix in line_prefix_from-FoundBehind (suc (length raw)) raw prefix
