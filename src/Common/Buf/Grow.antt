-- ===== src/Common/Buf/Grow.antt =====
-- The doubling loop of `buf_reserve` in src/common.c: when it ends, and how far it grows.
use native.Mathlib.Nat.{pow-suc}
use cellmgr.Base.{
  ℕ, zero, suc, ◌*◌, ◌%◌, ◌^◌, ◌≤◌, ◌<◌, Option, none, some, ◌≡◌, ◌⊎◌, inl, inr, refl, ap, arith,
  ltb, false, Bool-cases, ltb→lt, if◌then◌else◌,
}
use cellmgr.Common.Buf.{grow, size_max}

ltb_not : (a b : ℕ) → b ≤ a → ltb a b ≡ false
ltb_not a b h = ground arith

-- The loop has ended with room for `need`, and below twice of it if it grew at all.
abbrev pub Grown : ℕ → ℕ → Option ℕ → Type 0
Grown next need none = ⊥
Grown next need (some m) = (need ≤ m) × ((m ≡ next) ⊎ (m < 2 * need)) × (next ≤ m)

Grown-double :
    (next need : ℕ) (r : Option ℕ) → next < need → Grown (next * 2) need r → Grown next need r
Grown-double next need none lt h = h
Grown-double next need (some m) lt h = ground arith

grow_step :
    (fuel next need : ℕ)
    → grow (suc fuel) next need
      ≡ (if ltb next need then grow fuel ((next * 2) % size_max) need else some next)
unfolding grow
grow_step fuel next need = refl

no_wrap : (next need : ℕ) → need ≤ 2 ^ 63 → next < need → (next * 2) % size_max ≡ next * 2
no_wrap next need small lt = omega arith

-- For a need of 2^63 bytes at most no doubling wraps around, and enough rounds reach it.
pub grow_ends :
    (fuel next need : ℕ)
    → need ≤ 2 ^ 63
    → need ≤ next * 2 ^ fuel
    → Grown next need (grow (suc fuel) next need)
grow_ends zero next need small enough =
    rw (grow_step, ltb_not next need (omega arith)) (omega arith, inl refl, omega arith)
grow_ends (suc fuel) next need small enough = elim (Bool-cases (ltb next need)) [
  | inl lt ↦
      rw (grow_step, lt, no_wrap next need small (ltb→lt next need lt))
        (Grown-double next need _ (ltb→lt next need lt) (
          grow_ends fuel (next * 2) need small
            (omega (arith, ap (λ (t : ℕ). next * t) (pow-suc 2 fuel)))))
  | inr ge ↦ rw (grow_step, ge) (ground arith, inl refl, ground arith)
]
