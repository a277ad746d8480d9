-- ===== src/Smtp/Decode.antt =====
-- Base 64 as RFC 4648 decodes it, for `base64_encode` of src/smtp.c.
use cellmgr.Base.{
  ℕ, zero, suc, ◌+◌, ◌-◌, ◌*◌, ◌/◌, ◌%◌, ◌<◌, ◌≤◌, Bool, true, false, ◌&&◌, [], ◌∷◌, Option, none,
  some, ◌≡◌, refl, ap, inl, inr, Bool-cases, arith, leb, ◌==◌, ==_iff, if◌then◌else◌, Bytes, All,
  length,
}
use cellmgr.Smtp.Base64.{b64_char, base64_encode}

-- The value of a character of the alphabet.
unfoldable pub b64_value : ℕ → Option ℕ
b64_value c =
    if leb b'A' c && leb c b'Z'
    then some (c - b'A')
    else if leb b'a' c && leb c b'z'
    then some (c - b'a' + 26)
    else if leb b'0' c && leb c b'9'
    then some (c - b'0' + 52)
    else if c == b'+'
    then some 62
    else if c == b'/'
    then some 63
    else none

-- Of four characters the bytes: three, or fewer by the padding.
abbrev quad : Option ℕ → Option ℕ → Option ℕ → Option ℕ → Option (ℕ × ℕ × ℕ)
quad (some p) (some q) (some r) (some s) =
    some (p * 4 + q / 16, q % 16 * 16 + r / 4, r % 4 * 64 + s)
quad _ _ _ _ = none

unfoldable pub decode : Bytes → Option Bytes
decode [] = some []
decode (p ∷ q ∷ r ∷ s ∷ rest) =
    let more = decode rest in
    if r == b'=' && s == b'='
    then elim (quad (b64_value p) (b64_value q) (some 0) (some 0)) [
      | none ↦ none
      | some (a, b, c) ↦ some (a ∷ [])
    ]
    else if s == b'='
    then elim (quad (b64_value p) (b64_value q) (b64_value r) (some 0)) [
      | none ↦ none
      | some (a, b, c) ↦ some (a ∷ b ∷ [])
    ]
    else elim (quad (b64_value p) (b64_value q) (b64_value r) (b64_value s)) [
      | none ↦ none
      | some (a, b, c) ↦ elim more [ none ↦ none | some t ↦ some (a ∷ b ∷ c ∷ t) ]
    ]
decode _ = none

is_some_of : ℕ → Option ℕ → Bool
is_some_of n none = false
is_some_of n (some m) = m == n

-- The table is tested from entry `last` down.
entries_pass : (ℕ → Bool) → ℕ → Bool
entries_pass test zero = test zero
entries_pass test (suc last) = if test (suc last) then entries_pass test last else false

entry_passes :
    (test : ℕ → Bool) (last entry : ℕ)
    → entries_pass test last ≡ true
    → entry ≤ last
    → test entry ≡ true
unfolding entries_pass
entry_passes test zero zero passed bound = passed
entry_passes test zero (suc entry) passed bound = absurd (omega arith)
entry_passes test (suc last) entry passed bound = elim (Bool-cases (test (suc last))) [
  | inl top ↦ elim (Bool-cases (entry == suc last)) [
    | inl same ↦ rw ((==_iff entry (suc last)).0 same) top
    | inr below ↦ entry_passes test last entry (rw top at passed) (ground arith)
  ]
  | inr top ↦ cc (rw top at passed)
]

values_table : entries_pass (λ n. is_some_of n (b64_value (b64_char n))) 63 ≡ true
unfolding entries_pass is_some_of b64_value b64_char
values_table = refl

no_padding_table : entries_pass (λ n. if b64_char n == b'=' then false else true) 63 ≡ true
unfolding entries_pass b64_char
no_padding_table = refl

is_some_of_sound : (n : ℕ) (o : Option ℕ) → is_some_of n o ≡ true → o ≡ some n
unfolding is_some_of
is_some_of_sound n none h = cc
is_some_of_sound n (some m) h = ground arith

b64_value-b64_char : (n : ℕ) → n < 64 → b64_value (b64_char n) ≡ some n
b64_value-b64_char n h = is_some_of_sound n _ (entry_passes _ 63 n values_table (omega arith))

not_padding : (n : ℕ) → n < 64 → (b64_char n == b'=') ≡ false
not_padding n h = ground (
  arith,
  entry_passes (λ n. if b64_char n == b'=' then false else true) 63 n no_padding_table
      (omega arith),
)

-- The three bytes in front of a decoded rest.
abbrev three : ℕ → ℕ → ℕ → Option Bytes → Option Bytes
three a b c none = none
three a b c (some t) = some (a ∷ b ∷ c ∷ t)

decode_full :
    (p q r s : ℕ) (rest : Bytes)
    → p < 64
    → q < 64
    → r < 64
    → s < 64
    → decode (b64_char p ∷ b64_char q ∷ b64_char r ∷ b64_char s ∷ rest)
      ≡ three (p * 4 + q / 16) (q % 16 * 16 + r / 4) (r % 4 * 64 + s) (decode rest)
unfolding decode
decode_full p q r s rest hp hq hr hs = ground (
  arith,
  not_padding r hr,
  not_padding s hs,
  b64_value-b64_char p hp,
  b64_value-b64_char q hq,
  b64_value-b64_char r hr,
  b64_value-b64_char s hs,
)

decode_two :
    (p q r : ℕ)
    → p < 64
    → q < 64
    → r < 64
    → decode (b64_char p ∷ b64_char q ∷ b64_char r ∷ b'=' ∷ [])
      ≡ some ((p * 4 + q / 16) ∷ (q % 16 * 16 + r / 4) ∷ [])
unfolding decode
decode_two p q r hp hq hr = ground (
  arith,
  not_padding r hr,
  b64_value-b64_char p hp,
  b64_value-b64_char q hq,
  b64_value-b64_char r hr,
)

decode_one :
    (p q : ℕ)
    → p < 64
    → q < 64
    → decode (b64_char p ∷ b64_char q ∷ b'=' ∷ b'=' ∷ []) ≡ some ((p * 4 + q / 16) ∷ [])
unfolding decode
decode_one p q hp hq = ground (arith, b64_value-b64_char p hp, b64_value-b64_char q hq)

-- The sextets of `v` are its bytes again.
first_byte :
    (a b c v : ℕ)
    → a < 256
    → b < 256
    → c < 256
    → v ≡ a * 65_536 + b * 256 + c
    → v / 262_144 % 64 * 4 + v / 4096 % 64 / 16 ≡ a
first_byte a b c v ha hb hc e = omega arith

second_byte :
    (a b c v : ℕ)
    → a < 256
    → b < 256
    → c < 256
    → v ≡ a * 65_536 + b * 256 + c
    → v / 4096 % 64 % 16 * 16 + v / 64 % 64 / 4 ≡ b
second_byte a b c v ha hb hc e = omega arith

third_byte :
    (a b c v : ℕ)
    → a < 256
    → b < 256
    → c < 256
    → v ≡ a * 65_536 + b * 256 + c
    → v / 64 % 64 % 4 * 64 + v % 64 ≡ c
third_byte a b c v ha hb hc e = omega arith

sextet : (n : ℕ) → n % 64 < 64
sextet n = omega arith

-- RFC 4648 decodes every text of bytes that `base64_encode` wrote to that text.
pub decode-base64_encode : (s : Bytes) → All (λ c. c < 256) s → decode (base64_encode s) ≡ some s
unfolding base64_encode
decode-base64_encode [] h = unfold decode in refl
decode-base64_encode (a ∷ []) h =
    let v = a * 65_536 in
    let e : v ≡ a * 65_536 + 0 * 256 + 0 = omega arith in
    rw (decode_one (v / 262_144 % 64) (v / 4096 % 64) (sextet _) (sextet _))
      (ap (λ x. some (x ∷ [])) (first_byte a 0 0 v h.0 (omega arith) (omega arith) e))
decode-base64_encode (a ∷ b ∷ []) h =
    let v = a * 65_536 + b * 256 in
    let e : v ≡ a * 65_536 + b * 256 + 0 = omega arith in
    rw (
      decode_two (v / 262_144 % 64) (v / 4096 % 64) (v / 64 % 64) (sextet _) (sextet _) (sextet _),
      first_byte a b 0 v h.0 h.1.0 (omega arith) e,
      second_byte a b 0 v h.0 h.1.0 (omega arith) e,
    )
decode-base64_encode (a ∷ b ∷ c ∷ s) h =
    let v = a * 65_536 + b * 256 + c in
    rw (
      decode_full (v / 262_144 % 64) (v / 4096 % 64) (v / 64 % 64) (v % 64) (base64_encode s)
          (sextet _) (sextet _) (sextet _) (sextet _),
      first_byte a b c v h.0 h.1.0 h.1.1.0 refl,
      second_byte a b c v h.0 h.1.0 h.1.1.0 refl,
      third_byte a b c v h.0 h.1.0 h.1.1.0 refl,
      decode-base64_encode s h.1.1.1,
    )

-- Four characters for three bytes, or a part of three.
pub length-base64_encode : (s : Bytes) → length (base64_encode s) ≡ (length s + 2) / 3 * 4
unfolding base64_encode
length-base64_encode [] = refl
length-base64_encode (a ∷ []) = omega arith
length-base64_encode (a ∷ b ∷ []) = omega arith
length-base64_encode (a ∷ b ∷ c ∷ s) = omega (arith, length-base64_encode s)
