-- ===== src/Parsers/Quoted.antt =====
-- Finding lines and quoted strings in an answer: the first helpers of src/parsers.c. The buffer is
-- the bytes that it holds.
pub mod Inverse
pub mod Lines
pub mod OnePass
use cellmgr.Base.{
  ℕ, zero, suc, Bool, true, false, ◌||◌, List, [], ◌∷◌, ◌++◌, Option, none, some, ◌==◌,
  if◌then◌else◌, Bytes, codes, drop, length,
}
use cellmgr.Libc.Text.{has_prefix, strstr, strchr, skip_while}

abbrev pub is_line_end : ℕ → Bool
is_line_end c = c == 13 || c == 10

-- The text behind `prefix` on the first line that begins with it; `fuel` lines at most are tried.
unfoldable pub line_prefix_from : ℕ → Bytes → Bytes → Option Bytes
unfolding skip_while has_prefix strchr
line_prefix_from zero raw prefix = none
line_prefix_from (suc fuel) [] prefix = none
line_prefix_from (suc fuel) (c ∷ raw) prefix =
    let p = skip_while is_line_end (c ∷ raw) in
    if has_prefix prefix p
    then some (drop (length prefix) p)
    else elim (strchr p 10) [ none ↦ none | some rest ↦ line_prefix_from fuel (drop 1 rest) prefix ]

-- A round that goes on moves behind a line break, so the length is enough.
unfoldable pub find_line_prefix : Bytes → Bytes → Option Bytes
unfolding line_prefix_from
find_line_prefix raw prefix = line_prefix_from (suc (length raw)) raw prefix

-- The byte that `\c` stands for.
unfoldable pub unescaped : ℕ → ℕ
unescaped c = if c == b'n' then 10 else if c == b'r' then 13 else if c == b't' then 9 else c

-- The loop behind the opening quotation mark, with the variable `escaped`.
unfoldable pub quoted_text : Bool → Bytes → Bytes
unfolding unescaped
quoted_text escaped [] = []
quoted_text true (c ∷ p) = unescaped c ∷ quoted_text false p
quoted_text false (c ∷ p) =
    let escape = quoted_text true p in
    let plain = quoted_text false p in
    if c == b'\\' then escape else if c == b'"' then [] else c ∷ plain

unfoldable pub extract_quoted_after : Bytes → Option Bytes
unfolding quoted_text strchr
extract_quoted_after p = elim (strchr p b'"') [
  | none ↦ none
  | some q ↦ some (quoted_text false (drop 1 q))
]

-- The text of D-Bus's answer, or the answer itself. A null pointer is the empty text here.
unfoldable pub normalized_at_payload : Bytes → Bytes
unfolding extract_quoted_after strstr
normalized_at_payload raw = elim (strstr raw (codes "string ")) [
  | none ↦ raw
  | some p ↦ elim (extract_quoted_after p) [ none ↦ raw | some s ↦ s ]
]

unfoldable pub with_commas : List Bytes → Bytes
with_commas [] = []
with_commas (piece ∷ pieces) = b',' ∷ (piece ++ with_commas pieces)

-- The pieces, each but the first with `,` before it: the loops with the variable `first`.
unfoldable pub comma_separated : List Bytes → Bytes
unfolding with_commas
comma_separated [] = []
comma_separated (piece ∷ pieces) = piece ++ with_commas pieces
