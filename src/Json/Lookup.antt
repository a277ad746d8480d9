-- ===== src/Json/Lookup.antt =====
-- `find_key_value`, `json_get_string` and `json_get_int` of src/json_util.c. The first occurrence of
-- the quoted key counts, wherever in the text it stands.
use cellmgr.Base.{
  ℕ, Option, none, some, [], ◌∷◌, ◌++◌, ◌==◌, not, if◌then◌else◌, Bytes, drop, length,
}
use cellmgr.Base.Int.{ℤ}
use cellmgr.Json.Escape.{quote, backslash}
use cellmgr.Libc.Number.{atoi}
use cellmgr.Libc.Text.{isspace, strstr, skip_while, truncate}

-- `char needle[160]`
unfoldable pub key_needle : Bytes → Bytes
key_needle key = truncate 160 (quote ∷ (key ++ quote ∷ []))

-- Behind the key: the colon, and the value with no space in front.
unfoldable pub after_colon : Bytes → Option Bytes
unfolding skip_while isspace
after_colon [] = none
after_colon (c ∷ p) = if not (c == b':') then none else some (skip_while isspace p)

unfoldable pub find_key_value : Bytes → Bytes → Option Bytes
unfolding after_colon strstr skip_while isspace key_needle
find_key_value json key =
    let needle = key_needle key in
    elim (strstr json needle) [
      | none ↦ none
      | some p ↦ after_colon (skip_while isspace (drop (length needle) p))
    ]

-- The byte that a backslash and `c` stand for.
unfoldable pub unescape_byte : ℕ → ℕ
unescape_byte c = if c == b'n' then 10 else if c == b'r' then 13 else if c == b't' then 9 else c

-- The loop of `json_get_string` up to the closing quote or the end of the text.
unfoldable pub unquote : Bytes → Bytes
unfolding unescape_byte
unquote [] = []
unquote (c ∷ []) = if c == quote then [] else c ∷ []
unquote (c ∷ d ∷ p) =
    let escaped = unescape_byte d ∷ unquote p in
    let plain = c ∷ unquote (d ∷ p) in
    if c == quote then [] else if c == backslash then escaped else plain

abbrev string_value : Bytes → Option Bytes
string_value [] = none
string_value (c ∷ p) = if not (c == quote) then none else some (unquote p)

unfoldable pub json_get_string : Bytes → Bytes → Option Bytes
unfolding find_key_value unquote
json_get_string json key = elim (find_key_value json key) [ none ↦ none | some p ↦ string_value p ]

unfoldable pub json_get_int : Bytes → Bytes → ℤ → ℤ
unfolding find_key_value atoi
json_get_int json key fallback = elim (find_key_value json key) [
  | none ↦ fallback
  | some p ↦ atoi p
]
