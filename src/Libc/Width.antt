-- ===== src/Libc/Width.antt =====
-- How long the decimal numbers of Number are.
use cellmgr.Base.{
  ℕ, zero, suc, ◌+◌, ◌*◌, ◌/◌, ◌%◌, ◌<◌, ◌≤◌, true, [], ◌∷◌, ◌≡◌, subst, arith, inl, inr,
  Bool-cases, ◌==◌, Bytes, length, take-le, append-nil,
}
use cellmgr.Base.Int.{ℤ, pos, negsuc, IsInt}
use cellmgr.Libc.Text.{truncate}
use cellmgr.Libc.Number.{digits, show_nat, show_int, atoi, atoi-show_int}

-- `10 ^ (k + 1)`
tens : ℕ → ℕ
tens zero = 10
tens (suc k) = 10 * tens k

length-digits :
    (k fuel n : ℕ) (out : Bytes) → n < tens k → length (digits fuel n out) ≤ suc k + length out
unfolding digits tens
length-digits k zero n out h = omega arith
length-digits zero (suc fuel) n out h = rw (small n h, digits) (omega arith)
  where
    small : (n : ℕ) → n < 10 → (n / 10 == 0) ≡ true
    small n h = ground arith
length-digits (suc k) (suc fuel) n out h = elim (Bool-cases (n / 10 == 0)) [
  | inl e ↦ rw (e, digits) (omega arith)
  | inr e ↦
      rw (e, digits)
        (omega (arith, length-digits k fuel (n / 10) ((b'0' + n % 10) ∷ out) (tenth n (tens k) h)))
]
  where
    tenth : (n p : ℕ) → n < 10 * p → n / 10 < p
    tenth n p h = omega arith

length-show_nat : (n : ℕ) → n < 10_000_000_000 → length (show_nat n) ≤ 10
unfolding show_nat tens
length-show_nat n h = omega (arith, length-digits 9 (suc n) n [] h)

-- An array of 32 bytes holds an `int`.
truncate-show_int : (z : ℤ) → IsInt z → truncate 32 (show_int z) ≡ show_int z
unfolding show_int
truncate-show_int (pos n) h = take-le 31 _ (omega (arith, length-show_nat n (omega arith)))
truncate-show_int (negsuc n) h = take-le 31 _ (omega (arith, length-show_nat (suc n) (omega arith)))

-- It reads back as the number that was printed into it.
pub atoi-truncate-show_int : (z : ℤ) → IsInt z → atoi (truncate 32 (show_int z)) ≡ z
atoi-truncate-show_int z h =
    rw (truncate-show_int z h)
      (subst (λ s. atoi s ≡ z) (append-nil (show_int z)) (atoi-show_int z [] h _))
