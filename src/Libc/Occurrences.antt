-- ===== src/Libc/Occurrences.antt =====
-- The loop `while ((p = strstr(p, needle)) != NULL) { …; p += step; }`: the places that it stops at.
use cellmgr.Base.{
  ℕ, zero, suc, ◌≤◌, ◌<◌, List, [], ◌∷◌, none, some, ◌≡◌, refl, ap, arith, inl, inr, Option-cases,
  Bytes, drop, length, length-drop,
}
use cellmgr.Libc.Text.{strstr}

-- `fuel` rounds at most.
unfoldable pub occurrences_from : ℕ → ℕ → Bytes → Bytes → List Bytes
unfolding strstr
occurrences_from zero step needle p = []
occurrences_from (suc fuel) step needle p = elim (strstr p needle) [
  | none ↦ []
  | some m ↦ m ∷ occurrences_from fuel step needle (drop step m)
]

-- A round moves behind at least one byte, so the length is enough.
unfoldable pub occurrences : ℕ → Bytes → Bytes → List Bytes
unfolding occurrences_from
occurrences step needle s = occurrences_from (suc (length s)) step needle s

-- A match is not empty, and no longer than the text.
strstr-length :
    (s needle m : Bytes) (x : ℕ)
    → strstr s (x ∷ needle) ≡ some m
    → (length m ≤ length s) × (0 < length m)
unfolding strstr
strstr-length [] needle m x h = ground arith
strstr-length (c ∷ s) needle m x h = ground (arith, strstr-length s needle m x)

occurrences_step :
    (fuel step : ℕ) (needle p : Bytes)
    → occurrences_from (suc fuel) step needle p ≡ (elim (strstr p needle) [
      | none ↦ []
      | some m ↦ m ∷ occurrences_from fuel step needle (drop step m)
    ])
occurrences_step fuel step needle p = unfold occurrences_from in refl

-- More rounds than the length of the text change nothing: the loop has ended.
pub occurrences_from_enough :
    (fuel fuel' step x : ℕ) (needle p : Bytes)
    → 0 < step
    → length p < fuel
    → length p < fuel'
    → occurrences_from fuel step (x ∷ needle) p ≡ occurrences_from fuel' step (x ∷ needle) p
occurrences_from_enough zero fuel' step x needle p k h h' = absurd (omega arith)
occurrences_from_enough (suc fuel) zero step x needle p k h h' = absurd (omega arith)
occurrences_from_enough (suc fuel) (suc fuel') step x needle p k h h' =
    elim (Option-cases (strstr p (x ∷ needle))) [
      | inl e ↦ rw (occurrences_step fuel, e, occurrences_step fuel', e)
      | inr (m, e) ↦
          let short : length (drop step m) < length p =
            omega (arith, strstr-length p needle m x e, length-drop step m) in
          rw (occurrences_step fuel, e, occurrences_step fuel', e)
            (ap (◌∷◌ m) (
              occurrences_from_enough fuel fuel' step x needle (drop step m) k (omega arith)
                (omega arith)))
    ]
