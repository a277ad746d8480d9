-- ===== src/Json/Escape.antt =====
-- `json_escape`, `json_prop_string` and `json_prop_int` of src/json_util.c, as the text that they
-- append to the buffer, whose room Common/Buf is about.
use cellmgr.Base.{
  ℕ, ◌+◌, ◌-◌, ◌/◌, ◌%◌, Bool, true, false, [], ◌∷◌, ◌++◌, ◌==◌, ltb, if◌then◌else◌, Bytes,
}
use cellmgr.Base.Int.{ℤ}
use cellmgr.Libc.Number.{show_int}

abbrev pub quote : ℕ
quote = b'"'

abbrev pub backslash : ℕ
backslash = b'\\'

abbrev pub hex_digit : ℕ → ℕ
hex_digit n = if ltb n 10 then b'0' + n else b'a' + n - 10

-- What the loop appends for one byte: the `switch`, with `\u%04x` below 0x20.
unfoldable pub escape_byte : ℕ → Bytes
escape_byte c =
    if c == quote
    then backslash ∷ quote ∷ []
    else if c == backslash
    then backslash ∷ backslash ∷ []
    else if c == 8
    then backslash ∷ b'b' ∷ []
    else if c == 12
    then backslash ∷ b'f' ∷ []
    else if c == 10
    then backslash ∷ b'n' ∷ []
    else if c == 13
    then backslash ∷ b'r' ∷ []
    else if c == 9
    then backslash ∷ b't' ∷ []
    else if ltb c 32
    then backslash ∷ b'u' ∷ b'0' ∷ b'0' ∷ hex_digit (c / 16) ∷ hex_digit (c % 16) ∷ []
    else c ∷ []

-- The body of the literal.
unfoldable pub escape_bytes : Bytes → Bytes
unfolding escape_byte
escape_bytes [] = []
escape_bytes (c ∷ s) = escape_byte c ++ escape_bytes s

unfoldable pub json_escape : Bytes → Bytes
unfolding escape_bytes
json_escape s = quote ∷ (escape_bytes s ++ quote ∷ [])

abbrev comma_if : Bool → Bytes
comma_if true = b',' ∷ []
comma_if false = []

unfoldable pub json_prop_string : Bytes → Bytes → Bool → Bytes
unfolding json_escape
json_prop_string name value comma = comma_if comma ++ (json_escape name ++ b':' ∷ json_escape value)

unfoldable pub json_prop_int : Bytes → ℤ → Bool → Bytes
unfolding json_escape show_int
json_prop_int name value comma = comma_if comma ++ (json_escape name ++ b':' ∷ show_int value)
