-- ===== src/Parsers/Bands.antt =====
-- `append_fibocom_band_items` and `parse_gtact` of src/parsers.c: the bands that an answer names, by
-- words such as `BAND_LTE_3` first, then by numbers such as 103, each number once.
pub mod Distinct
pub mod Syntax
use cellmgr.Base.{
  ℕ, zero, suc, ◌+◌, Bool, true, false, not, ◌&&◌, List, [], ◌∷◌, ◌++◌, map, Option, none, some,
  ltb, leb, ◌==◌, if◌then◌else◌, Bytes, codes, length, drop,
}
use cellmgr.Base.Int.{ℤ, pos, negsuc, ltb_ℤ, leb_ℤ, eqb_ℤ, to_int, ◌+ℤ◌, ◌-ℤ◌}
use cellmgr.Libc.Text.{isdigit, str_eq, skip_while}
use cellmgr.Libc.Number.{atoi, show_int}
use cellmgr.Libc.Occurrences.{occurrences}
use cellmgr.Libc.Scan.{Directive, Item, num, text, sscanf}
use cellmgr.Json.Escape.{json_escape, json_prop_string, json_prop_int}
use cellmgr.Parsers.Quoted.{normalized_at_payload, comma_separated}

abbrev pub is_in : ℤ → List ℤ → Bool
is_in code [] = false
is_in code (c ∷ seen) = if eqb_ℤ c code then true else is_in code seen

-- `seen` holds 256 codes at most.
unfoldable pub note_code : List ℤ → ℤ → List ℤ
note_code seen code = if ltb (length seen) 256 then seen ++ code ∷ [] else seen

unfoldable pub band_item : Bytes → ℤ → ℤ → Bytes → Bytes
unfolding json_prop_string json_prop_int
band_item rat code band label =
    codes "{"
    ++ json_prop_string (codes "rat") rat false
    ++ json_prop_int (codes "code") code true
    ++ json_prop_int (codes "band") band true
    ++ codes ",\"label\":"
    ++ label
    ++ codes "}"

-- The `rat` and the band of the word at `p`, if both are read.
unfoldable pub band_word : Bytes → Option (Bytes × ℤ)
unfolding sscanf
band_word p =
    elim (sscanf
      (Directive.lit b'B'
        ∷ Directive.lit b'A'
        ∷ Directive.lit b'N'
        ∷ Directive.lit b'D'
        ∷ Directive.lit b'_'
        ∷ Directive.until 15 b'_'
        ∷ Directive.lit b'_'
        ∷ Directive.int
        ∷ [])
      p) [ text rat ∷ num band ∷ [] ↦ some (rat, band) | _ ↦ none ]

-- `5000 + band` or `100 + band`, in 32 bits.
unfoldable pub word_code : Bytes → ℤ → ℤ
unfolding to_int
word_code rat band =
    if str_eq rat (codes "NR") then to_int (pos 5000 +ℤ band) else to_int (pos 100 +ℤ band)

unfoldable pub word_label : Bytes → ℤ → Bytes → Bytes
unfolding json_escape show_int
word_label rat band p =
    if str_eq rat (codes "LTE")
    then codes "\"B" ++ show_int band ++ codes "\""
    else if str_eq rat (codes "NR")
    then codes "\"n" ++ show_int band ++ codes "\""
    else json_escape p

-- The first loop, over the places of `BAND_`: the items, and the codes that `seen` holds behind it.
unfoldable pub word_items : List Bytes → List ℤ → List Bytes × List ℤ
unfolding band_word word_code word_label band_item note_code
word_items [] seen = ([], seen)
word_items (p ∷ places) seen = elim (band_word p) [
  | none ↦ word_items places seen
  | some (rat, band) ↦
      let code = word_code rat band in
      let (items, seen') = word_items places (note_code seen code) in
      (band_item rat code band (word_label rat band p) ∷ items, seen')
]

-- `atoi` at the start of each run of digits; `inside` says that the run has begun.
unfoldable pub numbers_from : Bool → Bytes → List ℤ
unfolding isdigit atoi
numbers_from inside [] = []
numbers_from inside (c ∷ p) =
    let next = numbers_from (isdigit c) p in
    if isdigit c && not inside then atoi (c ∷ p) ∷ next else next

unfoldable pub numbers : Bytes → List ℤ
unfolding numbers_from
numbers p = numbers_from false p

unfoldable pub code_item : ℤ → Bytes
unfolding band_item show_int
code_item code =
    if leb_ℤ (pos 5000) code
    then (let band = code -ℤ pos 5000 in
        band_item (codes "NR") code band (codes "\"n" ++ show_int band ++ codes "\""))
    else (let band = code -ℤ pos 100 in
        band_item (codes "LTE") code band (codes "\"B" ++ show_int band ++ codes "\""))

-- Whether the second loop appends a code.
unfoldable pub is_new : List ℤ → ℤ → Bool
is_new seen code = not (ltb_ℤ code (pos 100)) && not (is_in code seen)

-- The codes that the second loop appends, of those read.
unfoldable pub new_codes : List ℤ → List ℤ → List ℤ
unfolding is_new note_code
new_codes [] seen = []
new_codes (code ∷ rest) seen = elim (is_new seen code) [
  | true ↦ code ∷ new_codes rest (note_code seen code)
  | false ↦ new_codes rest seen
]

unfoldable pub append_fibocom_band_items : Bytes → Bytes
unfolding word_items occurrences numbers new_codes code_item comma_separated
append_fibocom_band_items raw =
    let (words, seen) = word_items (occurrences 5 (codes "BAND_") raw) [] in
    codes "["
    ++ comma_separated (words ++ map code_item (new_codes (numbers raw) seen))
    ++ codes "]"

unfoldable pub parse_gtact : Bytes → Bytes
unfolding normalized_at_payload append_fibocom_band_items json_escape
parse_gtact raw =
    let payload = normalized_at_payload raw in
    codes "{\"bands\":"
    ++ append_fibocom_band_items payload
    ++ codes ",\"raw\":"
    ++ json_escape payload
    ++ codes "}"
