-- ===== src/Libc/Text.antt =====
-- `ctype.h` in the C locale, and the comparisons and searches of `string.h`. A pointer into a string
-- is the suffix that it points at, and a null pointer is `none`.
use cellmgr.Base.{
  ℕ, ◌-◌, Bool, true, false, ◌&&◌, ◌||◌, [], ◌∷◌, ◌++◌, Option, none, some, ◌≡◌, ◌↔◌, refl, arith,
  leb, ◌==◌, if◌then◌else◌, Bytes, take, All,
}

unfoldable pub isspace : ℕ → Bool
isspace c = c == b' ' || (leb 9 c && leb c 13)

unfoldable pub isdigit : ℕ → Bool
isdigit c = leb b'0' c && leb c b'9'

unfoldable pub toupper : ℕ → ℕ
toupper c = if leb b'a' c && leb c b'z' then c - 32 else c

-- `strcmp(a, b) == 0`
unfoldable pub str_eq : Bytes → Bytes → Bool
str_eq [] [] = true
str_eq (x ∷ a) (y ∷ b) = x == y && str_eq a b
str_eq _ _ = false

-- `strncmp(s, prefix, strlen(prefix)) == 0`
unfoldable pub has_prefix : Bytes → Bytes → Bool
has_prefix [] s = true
has_prefix (x ∷ prefix) [] = false
has_prefix (x ∷ prefix) (c ∷ s) = x == c && has_prefix prefix s

-- `strstr(s, needle)`
unfoldable pub strstr : Bytes → Bytes → Option Bytes
unfolding has_prefix
strstr [] needle = if has_prefix needle [] then some [] else none
strstr (c ∷ s) needle = if has_prefix needle (c ∷ s) then some (c ∷ s) else strstr s needle

-- `strchr(s, b)` for a byte that is not NUL
unfoldable pub strchr : Bytes → ℕ → Option Bytes
strchr [] b = none
strchr (c ∷ s) b = if c == b then some (c ∷ s) else strchr s b

-- `while (*p && test(*p)) p++;`
unfoldable pub skip_while : (ℕ → Bool) → Bytes → Bytes
skip_while test [] = []
skip_while test (c ∷ s) = if test c then skip_while test s else c ∷ s

-- What `skip_while` steps over.
unfoldable pub take_while : (ℕ → Bool) → Bytes → Bytes
take_while test [] = []
take_while test (c ∷ s) = if test c then c ∷ take_while test s else []

-- `s[0] == '\0'`
abbrev pub is_nil : Bytes → Bool
is_nil [] = true
is_nil (c ∷ s) = false

-- `snprintf(dst, size, "%s", s)`: at most `size - 1` bytes are kept.
abbrev pub truncate : ℕ → Bytes → Bytes
truncate size s = take (size - 1) s

pub str_eq_iff : (a b : Bytes) → (str_eq a b ≡ true) ↔ (a ≡ b)
unfolding str_eq
str_eq_iff (x ∷ a) (y ∷ b) = ground (arith, str_eq_iff a b)
str_eq_iff _ _ = ground arith

pub str_eq_refl : (a : Bytes) → str_eq a a ≡ true
str_eq_refl a = (str_eq_iff a a).1 refl

pub has_prefix-append : (p s : Bytes) → has_prefix p (p ++ s) ≡ true
unfolding has_prefix
has_prefix-append [] s = refl
has_prefix-append (x ∷ p) s = ground (arith, has_prefix-append p s)

-- A string with a prefix is that prefix and a rest.
pub has_prefix_sound : (p s : Bytes) → has_prefix p s ≡ true → (rest : Bytes) × (s ≡ p ++ rest)
unfolding has_prefix
has_prefix_sound [] s h = (s, refl)
has_prefix_sound (x ∷ p) [] h = cc
has_prefix_sound (x ∷ p) (c ∷ s) h =
    let (rest, e) = has_prefix_sound p s (ground arith) in (rest, ground arith)

pub strstr-prefix : (s needle : Bytes) → has_prefix needle s ≡ true → strstr s needle ≡ some s
unfolding strstr
strstr-prefix [] needle h = ground arith
strstr-prefix (c ∷ s) needle h = ground arith

pub strstr_skip :
    (c : ℕ) (s needle : Bytes)
    → has_prefix needle (c ∷ s) ≡ false
    → strstr (c ∷ s) needle ≡ strstr s needle
unfolding strstr
strstr_skip c s needle h = ground arith

pub take_while-append-skip_while :
    (test : ℕ → Bool) (s : Bytes) → take_while test s ++ skip_while test s ≡ s
unfolding take_while skip_while
take_while-append-skip_while test [] = refl
take_while-append-skip_while test (c ∷ s) = ground (arith, take_while-append-skip_while test s)

pub take_while-All : (test : ℕ → Bool) (s : Bytes) → All (λ c. test c ≡ true) (take_while test s)
unfolding take_while
take_while-All test [] = tt
take_while-All test (c ∷ s) = ground (arith, take_while-All test s)
