-- ===== src/Parsers/Dbus.antt =====
-- `parse_dbus_properties_json` and `append_dbus_variant_json` of src/parsers.c: the properties in an
-- answer of D-Bus, and one value of them.
pub mod Syntax
use cellmgr.Base.{
  ℕ, ◌-◌, Bool, true, false, not, ◌&&◌, ◌||◌, List, [], ◌∷◌, ◌++◌, Option, none, some, ltb, ◌==◌,
  if◌then◌else◌, Bytes, codes, length, take, drop,
}
use cellmgr.Libc.Text.{isspace, has_prefix, strstr, strchr, skip_while, take_while}
use cellmgr.Libc.Occurrences.{occurrences}
use cellmgr.Json.Escape.{json_escape, json_prop_string}
use cellmgr.Parsers.Quoted.{extract_quoted_after}

abbrev entry_mark : Bytes
entry_mark = codes "dict entry("

-- `b` is a pointer into the text of `a`, or null: `a && b > a`, where both are suffixes.
abbrev is_behind : Bytes → Option Bytes → Bool
is_behind b none = false
is_behind b (some a) = ltb (length b) (length a)

-- The bytes up to a space or `)`, `size - 1` at most.
abbrev plain_token : ℕ → Bytes → Bytes
plain_token size s = take (size - 1) (take_while (λ c. not (isspace c) && not (c == b')')) s)

abbrev skip_word : Bytes → Bytes
skip_word s = skip_while isspace (skip_while (λ c. not (isspace c)) s)

-- The value that the branches on the text behind `variant` find.
unfoldable pub property_value : Bytes → Option Bytes
unfolding extract_quoted_after has_prefix skip_while take_while isspace
property_value v =
    if has_prefix (codes "string ") v || has_prefix (codes "object path ") v
    then extract_quoted_after v
    else if has_prefix (codes "boolean ") v
    then some (if has_prefix (codes "true") (drop 8 v) then codes "true" else codes "false")
    else some (plain_token 96 (skip_word (skip_while isspace v)))

-- One round at the place `p` of an entry: the property that is appended, if one is.
unfoldable pub property_at : Bytes → Option (Bytes × Bytes)
unfolding strstr extract_quoted_after property_value skip_while isspace
property_at p =
    let entry_end = strstr (drop 11 p) entry_mark in
    elim (strstr p (codes "string ")) [
      | none ↦ none
      | some key_mark ↦
          if is_behind key_mark entry_end then none else elim (extract_quoted_after key_mark) [
            | none ↦ none
            | some key ↦ elim (strstr key_mark (codes "variant")) [
              | none ↦ none
              | some variant ↦
                  if is_behind variant entry_end
                  then none
                  else elim (property_value (skip_while isspace (drop 7 variant))) [
                    | none ↦ none
                    | some value ↦ elim key [ [] ↦ none | k ∷ ks ↦ some (k ∷ ks, value) ]
                  ]
            ]
          ]
    ]

-- The appended properties; `comma` is `!first`.
unfoldable pub property_items : Bool → List Bytes → Bytes
unfolding property_at json_prop_string
property_items comma [] = []
property_items comma (p ∷ places) = elim (property_at p) [
  | none ↦ property_items comma places
  | some (key, value) ↦ json_prop_string key value comma ++ property_items true places
]

unfoldable pub parse_dbus_properties_json : Bytes → Bytes
unfolding property_items occurrences json_escape
parse_dbus_properties_json raw =
    codes "{\"properties\":{"
    ++ property_items false (occurrences 11 entry_mark raw)
    ++ codes "},\"raw\":"
    ++ json_escape raw
    ++ codes "}"

abbrev empty_literal : Bytes
empty_literal = codes "\"\""

-- The value behind `variant`, its blanks skipped.
unfoldable pub variant_value : Bytes → Bytes
unfolding strchr extract_quoted_after json_escape has_prefix skip_while take_while isspace
variant_value p =
    if has_prefix (codes "string") p || has_prefix (codes "object path") p
    then elim (strchr p b'"') [
      | none ↦ empty_literal
      | some q ↦ elim (extract_quoted_after q) [ none ↦ empty_literal | some s ↦ json_escape s ]
    ]
    else if has_prefix (codes "boolean") p
    then (if has_prefix (codes "true") (skip_while isspace (drop 7 p))
        then codes "true"
        else codes "false")
    else elim (plain_token 128 (skip_word p)) [ [] ↦ codes "null" | c ∷ token ↦ c ∷ token ]

unfoldable pub append_dbus_variant_json : Bytes → Bytes
unfolding strstr variant_value skip_while isspace
append_dbus_variant_json line = elim (strstr line (codes "variant")) [
  | none ↦ codes "null"
  | some p ↦ variant_value (skip_while isspace (drop 7 p))
]
