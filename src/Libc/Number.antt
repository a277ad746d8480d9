-- ===== src/Libc/Number.antt =====
-- Decimal numbers: `atoi` and `strtol(_, _, 10)` of glibc on an LP64 target, and `%d` and `%ld`.
use cellmgr.Base.{
  ℕ, zero, suc, ◌+◌, ◌-◌, ◌*◌, ◌/◌, ◌%◌, ◌<◌, min, Bool, true, false, [], ◌∷◌, ◌++◌, ◌≡◌, refl, ap,
  ◌∙◌, arith, ◌==◌, if◌then◌else◌, Bytes, All,
}
use cellmgr.Base.Int.{ℤ, pos, negsuc, sub_ℕ, to_int, IsInt, to_int-eq}
use cellmgr.Libc.Text.{isspace, isdigit, skip_while}

-- The number that the leading digits spell behind `acc`.
unfoldable pub value : ℕ → Bytes → ℕ
unfolding isdigit
value acc [] = acc
value acc (c ∷ s) = let rest = value (acc * 10 + (c - b'0')) s in if isdigit c then rest else acc

-- `strtol` saturates at the ends of a 64-bit `long`.
abbrev long_of : Bool → ℕ → ℤ
long_of true n = sub_ℕ 0 (min n 9_223_372_036_854_775_808)
long_of false n = pos (min n 9_223_372_036_854_775_807)

unfoldable pub strtol_signed : Bytes → ℤ
unfolding value
strtol_signed [] = pos 0
strtol_signed (c ∷ s) =
    if c == b'-'
    then long_of true (value 0 s)
    else if c == b'+'
    then long_of false (value 0 s)
    else long_of false (value 0 (c ∷ s))

unfoldable pub strtol : Bytes → ℤ
unfolding strtol_signed skip_while isspace
strtol s = strtol_signed (skip_while isspace s)

-- glibc's `atoi` is `(int)strtol(s, NULL, 10)`.
unfoldable pub atoi : Bytes → ℤ
unfolding strtol to_int
atoi s = to_int (strtol s)

-- The decimal digits of `n` in front of `out`; `n + 1` rounds are enough.
unfoldable pub digits : ℕ → ℕ → Bytes → Bytes
digits zero n out = out
digits (suc fuel) n out = elim (n / 10 == 0) [
  | true ↦ (b'0' + n % 10) ∷ out
  | false ↦ digits fuel (n / 10) ((b'0' + n % 10) ∷ out)
]

-- `%llu`
unfoldable pub show_nat : ℕ → Bytes
unfolding digits
show_nat n = digits (suc n) n []

-- `%d` and `%ld`
unfoldable pub show_int : ℤ → Bytes
unfolding show_nat
show_int (pos n) = show_nat n
show_int (negsuc n) = b'-' ∷ show_nat (suc n)

-- What follows a number does not lengthen it.
abbrev pub StopsNumber : Bytes → Type 0
StopsNumber [] = Unit
StopsNumber (c ∷ s) = isdigit c ≡ false

value-StopsNumber : (acc : ℕ) (s : Bytes) → StopsNumber s → value acc s ≡ acc
unfolding value
value-StopsNumber acc [] h = refl
value-StopsNumber acc (c ∷ s) h = ground arith

value_last :
    (acc n : ℕ) (out : Bytes) → value acc ((b'0' + n % 10) ∷ out) ≡ value (acc * 10 + n % 10) out
unfolding value
value_last acc n out = ground arith

value-digits : (fuel n : ℕ) (out : Bytes) → n < fuel → value 0 (digits fuel n out) ≡ value n out
unfolding digits
value-digits zero n out h = absurd (omega arith)
value-digits (suc fuel) n out h = ground (
  arith,
  value_last 0 n out,
  value_last (n / 10) n out,
  value-digits fuel (n / 10) ((b'0' + n % 10) ∷ out),
)

digits-append :
    (fuel n : ℕ) (out rest : Bytes) → digits fuel n out ++ rest ≡ digits fuel n (out ++ rest)
unfolding digits
digits-append zero n out rest = refl
digits-append (suc fuel) n out rest =
    ground (arith, digits-append fuel (n / 10) ((b'0' + n % 10) ∷ out) rest)

pub value-show_nat : (n : ℕ) (rest : Bytes) → StopsNumber rest → value 0 (show_nat n ++ rest) ≡ n
unfolding show_nat
value-show_nat n rest h =
    rw (digits-append, value-digits (suc n) n rest (omega arith)) (value-StopsNumber n rest h)

-- A text that begins with a digit.
abbrev pub begins_digit : Bytes → Bool
begins_digit [] = false
begins_digit (c ∷ s) = isdigit c

abbrev pub BeginsNumber : Bytes → Type 0
BeginsNumber s = begins_digit s ≡ true

digit-BeginsNumber : (n : ℕ) (out : Bytes) → BeginsNumber ((b'0' + n % 10) ∷ out)
unfolding isdigit
digit-BeginsNumber n out = ground arith

digits-BeginsNumber :
    (fuel n : ℕ) (out : Bytes) → BeginsNumber out → BeginsNumber (digits fuel n out)
unfolding digits
digits-BeginsNumber zero n out h = h
digits-BeginsNumber (suc fuel) n out h =
    ground
      (arith, digit-BeginsNumber n out, digits-BeginsNumber fuel (n / 10) ((b'0' + n % 10) ∷ out))

digits-All :
    (fuel n : ℕ) (out : Bytes)
    → All (λ c. isdigit c ≡ true) out
    → All (λ c. isdigit c ≡ true) (digits fuel n out)
unfolding digits
digits-All zero n out h = h
digits-All (suc fuel) n out h =
    ground (arith, digit-BeginsNumber n out, digits-All fuel (n / 10) ((b'0' + n % 10) ∷ out))

digits-suc-BeginsNumber : (fuel n : ℕ) (out : Bytes) → BeginsNumber (digits (suc fuel) n out)
unfolding digits
digits-suc-BeginsNumber fuel n out =
    ground
      (arith, digit-BeginsNumber n out, digits-BeginsNumber fuel (n / 10) ((b'0' + n % 10) ∷ out))

-- Every byte that is printed is a digit.
pub show_nat-All : (n : ℕ) → All (λ c. isdigit c ≡ true) (show_nat n)
unfolding show_nat
show_nat-All n = digits-All (suc n) n [] tt

show_nat-append : (n : ℕ) (rest : Bytes) → show_nat n ++ rest ≡ digits (suc n) n rest
show_nat-append n rest = unfold show_nat in digits-append (suc n) n [] rest

pub show_nat-BeginsNumber : (n : ℕ) (rest : Bytes) → BeginsNumber (show_nat n ++ rest)
show_nat-BeginsNumber n rest = rw show_nat-append (digits-suc-BeginsNumber n n rest)

strtol_signed-BeginsNumber :
    (s : Bytes) → BeginsNumber s → strtol s ≡ pos (min (value 0 s) 9_223_372_036_854_775_807)
unfolding strtol strtol_signed skip_while isspace isdigit
strtol_signed-BeginsNumber [] h = cc
strtol_signed-BeginsNumber (c ∷ s) h = ground arith

strtol_minus : (s : Bytes) → strtol (b'-' ∷ s) ≡ sub_ℕ 0 (min (value 0 s) 9_223_372_036_854_775_808)
unfolding strtol strtol_signed skip_while isspace
strtol_minus s = refl

strtol_show :
    (n : ℕ) (rest : Bytes)
    → StopsNumber rest
    → strtol (show_nat n ++ rest) ≡ pos (min n 9_223_372_036_854_775_807)
strtol_show n rest k =
    rw (strtol_signed-BeginsNumber _ (show_nat-BeginsNumber n rest), value-show_nat n rest k)

-- What `%d` prints `atoi` reads back, whatever follows that is not a digit.
pub atoi-show_int :
    (z : ℤ) (rest : Bytes) → IsInt z → StopsNumber rest → atoi (show_int z ++ rest) ≡ z
atoi-show_int (pos n) rest h k =
    unfold atoi show_int in
    (rw (strtol_show n rest k, to_int-eq (pos (min n 9_223_372_036_854_775_807)) (omega arith))
      (ground arith))
atoi-show_int (negsuc n) rest h k =
    unfold atoi show_int in
    (rw (strtol_minus, value-show_nat (suc n) rest k) (ap to_int (eq) ∙ to_int-eq (negsuc n) h))
  where
    eq : sub_ℕ 0 (min (suc n) 9_223_372_036_854_775_808) ≡ negsuc n
    eq = ground arith

solid_digit :
    (s : Bytes) → BeginsNumber s → (c : ℕ) × (t : Bytes) × (s ≡ c ∷ t) × (isspace c ≡ false)
unfolding isspace isdigit
solid_digit [] h = cc
solid_digit (c ∷ t) h = (c, t, refl, ground arith)

-- A printed number does not begin with a space.
pub show_int_solid :
    (z : ℤ) (rest : Bytes)
    → (c : ℕ) × (t : Bytes) × (show_int z ++ rest ≡ c ∷ t) × (isspace c ≡ false)
show_int_solid (pos n) rest = unfold show_int in solid_digit _ (show_nat-BeginsNumber n rest)
show_int_solid (negsuc n) rest =
    unfold show_int isspace in (b'-', show_nat (suc n) ++ rest, refl, refl)
