-- ===== src/Parsers/Bands/Distinct.antt =====
-- The band codes that the second loop of `append_fibocom_band_items` (src/parsers.c) appends.
use cellmgr.Base.{
  ◌+◌, ◌≤◌, ◌<◌, true, false, List, [], ◌∷◌, ◌++◌, ◌≡◌, inl, inr, refl, ap, arith, Bool-cases, All,
  ◌≢◌, length, length-append,
}
use cellmgr.Base.Int.{ℤ, pos, negsuc, pos_part, neg_part, eqb_ℤ, ◌≤ℤ◌}
use cellmgr.Parsers.Bands.{is_in, is_new, note_code, new_codes}

-- A code of at least 100 that is none of those in `seen`.
abbrev pub IsFresh : List ℤ → ℤ → Type 0
IsFresh seen code = (pos 100 ≤ℤ code) × All (λ other. code ≢ other) seen

-- Each code is fresh, also against those before it.
abbrev pub Distinct : List ℤ → List ℤ → Type 0
Distinct seen [] = Unit
Distinct seen (code ∷ codes) = IsFresh seen code × Distinct (seen ++ code ∷ []) codes

is_in-All : (code : ℤ) (seen : List ℤ) → is_in code seen ≡ false → All (λ other. code ≢ other) seen
is_in-All code [] h = tt
is_in-All code (other ∷ seen) h = elim (Bool-cases (eqb_ℤ other code)) [
  | inl e ↦ cc (rw e at h)
  | inr e ↦ (
    λ same. ground (arith, ap (λ z. pos_part z) same, ap (λ z. neg_part z) same, e),
    is_in-All code seen (rw e at h),
  )
]

is_new-IsFresh : (seen : List ℤ) (code : ℤ) → is_new seen code ≡ true → IsFresh seen code
unfolding is_new
is_new-IsFresh seen (pos n) h =
    let absent : is_in (pos n) seen ≡ false = ground (arith, h) in
    (ground (arith, h), is_in-All (pos n) seen absent)
is_new-IsFresh seen (negsuc n) h = ground (arith, h)

note_code_room :
    (seen : List ℤ) (code : ℤ) → length seen < 256 → note_code seen code ≡ seen ++ code ∷ []
unfolding note_code
note_code_room seen code h = ground arith

new_codes_taken :
    (seen codes : List ℤ) (code : ℤ)
    → is_new seen code ≡ true
    → new_codes (code ∷ codes) seen ≡ code ∷ new_codes codes (note_code seen code)
unfolding new_codes
new_codes_taken seen codes code h = rw (h, new_codes) refl

new_codes_skipped :
    (seen codes : List ℤ) (code : ℤ)
    → is_new seen code ≡ false
    → new_codes (code ∷ codes) seen ≡ new_codes codes seen
unfolding new_codes
new_codes_skipped seen codes code h = rw (h, new_codes) refl

-- While the table of 256 codes has room for the numbers of the answer, every code that the second
-- loop appends is at least 100, is none of the codes of the first loop, and is appended once.
pub new_codes-Distinct :
    (codes seen : List ℤ) → length seen + length codes ≤ 256 → Distinct seen (new_codes codes seen)
new_codes-Distinct [] seen h = unfold new_codes in tt
new_codes-Distinct (code ∷ codes) seen h = elim (Bool-cases (is_new seen code)) [
  | inl e ↦
      rw (new_codes_taken seen codes code e, note_code_room seen code (omega arith))
        (
          is_new-IsFresh seen code e,
          new_codes-Distinct codes (seen ++ code ∷ [])
              (omega (arith, length-append seen (code ∷ []))),
        )
  | inr e ↦ rw (new_codes_skipped seen codes code e) (new_codes-Distinct codes seen (omega arith))
]
