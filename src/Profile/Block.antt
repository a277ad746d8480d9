-- ===== src/Profile/Block.antt =====
-- `find_capability_block` of src/profile.c: the braces that follow the first quoted occurrence of a
-- name.
use cellmgr.Base.{
  ℕ, suc, ◌-◌, Bool, true, false, [], ◌∷◌, ◌++◌, Option, none, some, ◌==◌, if◌then◌else◌, Bytes,
}
use cellmgr.Libc.Text.{strstr, strchr, truncate}

-- Where the loop stands: outside of strings, in one, or behind a backslash in one.
pub data Place : Type 0 where
  outside inside escaped : Place

-- The place behind one byte.
unfoldable pub next_place : Place → ℕ → Place
next_place outside c = if c == b'"' then inside else outside
next_place inside c = if c == b'\\' then escaped else if c == b'"' then outside else inside
next_place escaped c = inside

-- `depth` behind one byte.
unfoldable pub next_depth : Place → ℕ → ℕ → ℕ
next_depth outside c depth = if c == b'{' then suc depth else if c == b'}' then depth - 1 else depth
next_depth inside c depth = depth
next_depth escaped c depth = depth

-- Whether the loop is left at this byte.
unfoldable pub closes : Place → ℕ → ℕ → Bool
closes outside c depth = if c == b'}' then depth == 1 else false
closes inside c depth = false
closes escaped c depth = false

-- The bytes from here to the brace that closes the block, with it; `none` if the text ends before.
unfoldable pub block_text : Place → ℕ → Bytes → Option Bytes
unfolding next_place next_depth closes
block_text place depth [] = none
block_text place depth (c ∷ s) = elim (closes place c depth) [
  | true ↦ some (c ∷ [])
  | false ↦ elim (block_text (next_place place c) (next_depth place c depth) s) [
    | none ↦ none
    | some t ↦ some (c ∷ t)
  ]
]

unfoldable pub find_capability_block : Bytes → Bytes → Option Bytes
unfolding strstr strchr block_text
find_capability_block json capability =
    elim (strstr json (truncate 192 (b'"' ∷ (capability ++ b'"' ∷ [])))) [
      | none ↦ none
      | some p ↦ elim (strchr p b'{') [ none ↦ none | some brace ↦ block_text outside 0 brace ]
    ]
