-- ===== src/Json/Strings.antt =====
-- The strings of JSON (RFC 8259) and what `json_escape` of src/json_util.c writes.
use cellmgr.Base.{
  ℕ, zero, suc, ◌+◌, ◌-◌, ◌*◌, ◌/◌, ◌%◌, ◌<◌, ◌≤◌, false, ◌&&◌, Option, none, some, [], ◌∷◌, ◌++◌,
  ◌≡◌, ◌≢◌, refl, ap, ◌∙◌, arith, ◌==◌, leb, ltb, if◌then◌else◌, Bytes, append_assoc,
}
use cellmgr.Json.Escape.{quote, backslash, hex_digit, escape_byte, escape_bytes, json_escape}

-- Where a reader of a string stands: between characters, behind a backslash, or with hexadecimal
-- digits to read behind the value so far.
pub data Mode : Type 0 where
  plain escaped : Mode
  hex : ℕ → ℕ → Mode

-- The characters behind a backslash, without `u`.
abbrev short_escape : ℕ → Option ℕ
short_escape c =
    if c == quote
    then some quote
    else if c == backslash
    then some backslash
    else if c == b'/'
    then some b'/'
    else if c == b'b'
    then some 8
    else if c == b'f'
    then some 12
    else if c == b'n'
    then some 10
    else if c == b'r'
    then some 13
    else if c == b't'
    then some 9
    else none

abbrev hex_value : ℕ → Option ℕ
hex_value c =
    if leb b'0' c && leb c b'9'
    then some (c - b'0')
    else if leb b'a' c && leb c b'f'
    then some (c - b'a' + 10)
    else if leb b'A' c && leb c b'F'
    then some (c - b'A' + 10)
    else none

abbrev pub put_first : ℕ → Option (Bytes × Bytes) → Option (Bytes × Bytes)
put_first c none = none
put_first c (some (s, rest)) = some (c ∷ s, rest)

-- The characters up to the closing quote, and what follows it. A control character that is not
-- escaped is refused.
unfoldable pub decode : Mode → Bytes → Option (Bytes × Bytes)
decode mode [] = none
decode plain (c ∷ s) =
    let escape = decode escaped s in
    let char = put_first c (decode plain s) in
    if c == quote
    then some ([], s)
    else if c == backslash
    then escape
    else if ltb c 32
    then none
    else char
decode escaped (c ∷ s) =
    let unicode = decode (hex 3 0) s in
    let next = decode plain s in
    if c == b'u' then unicode else elim (short_escape c) [ none ↦ none | some v ↦ put_first v next ]
decode (hex zero acc) (c ∷ s) =
    let next = decode plain s in
    elim (hex_value c) [ none ↦ none | some v ↦ put_first (acc * 16 + v) next ]
decode (hex (suc k) acc) (c ∷ s) = elim (hex_value c) [
  | none ↦ none
  | some v ↦ decode (hex k (acc * 16 + v)) s
]

hex_value-hex_digit : (n : ℕ) → n < 16 → hex_value (hex_digit n) ≡ some n
hex_value-hex_digit n h = ground arith

-- The `\u00xx` form.
decode_unicode :
    (c : ℕ) (rest : Bytes)
    → c < 32
    → decode plain (backslash ∷ b'u' ∷ b'0' ∷ b'0' ∷ hex_digit (c / 16) ∷ hex_digit (c % 16) ∷ rest)
      ≡ put_first c (decode plain rest)
unfolding decode
decode_unicode c rest h = ground (arith, hex_value-hex_digit (c / 16), hex_value-hex_digit (c % 16))

decode_char :
    (c : ℕ) (rest : Bytes)
    → 32 ≤ c
    → c ≢ quote
    → c ≢ backslash
    → decode plain (c ∷ rest) ≡ put_first c (decode plain rest)
unfolding decode
decode_char c rest h k l = ground arith

decode_short :
    (e v : ℕ) (rest : Bytes)
    → e ≢ b'u'
    → short_escape e ≡ some v
    → decode plain (backslash ∷ e ∷ rest) ≡ put_first v (decode plain rest)
unfolding decode
decode_short e v rest h k = rw (not_unicode e h, k)
  where
    not_unicode : (e : ℕ) → e ≢ b'u' → (e == b'u') ≡ false
    not_unicode e h = ground arith

decode-escape_byte :
    (c : ℕ) (rest : Bytes) → decode plain (escape_byte c ++ rest) ≡ put_first c (decode plain rest)
unfolding escape_byte
decode-escape_byte c rest = ground (
  arith,
  decode_unicode c rest,
  decode_char c rest,
  decode_short quote quote rest,
  decode_short backslash backslash rest,
  decode_short b'b' 8 rest,
  decode_short b'f' 12 rest,
  decode_short b'n' 10 rest,
  decode_short b'r' 13 rest,
  decode_short b't' 9 rest,
)

decode-escape_bytes :
    (s rest : Bytes) → decode plain (escape_bytes s ++ quote ∷ rest) ≡ some (s, rest)
unfolding escape_bytes
decode-escape_bytes [] rest = unfold decode in refl
decode-escape_bytes (c ∷ s) rest =
    rw append_assoc (decode-escape_byte c _ ∙ ap (put_first c) (decode-escape_bytes s rest))

-- A reader of one string, its opening quote included.
unfoldable pub read_string : Bytes → Option (Bytes × Bytes)
unfolding decode
read_string [] = none
read_string (c ∷ s) = if c == quote then decode plain s else none

-- `json_escape` writes a JSON string that denotes its argument, whatever bytes that holds, and what
-- is appended later does not become a part of it.
pub read_string-json_escape :
    (s rest : Bytes) → read_string (json_escape s ++ rest) ≡ some (s, rest)
unfolding read_string json_escape
read_string-json_escape s rest = rw append_assoc (decode-escape_bytes s rest)
