-- ===== src/Parsers/Cells.antt =====
-- `parse_gtccinfo` of src/parsers.c: the cells that the modem sees, one for a line.
pub mod Syntax
use cellmgr.Base.{
  ℕ, zero, suc, Bool, true, false, ◌||◌, List, [], ◌∷◌, ◌++◌, map, Option, none, some, ltb, ◌==◌,
  if◌then◌else◌, Bytes, codes, length, take,
}
use cellmgr.Libc.Text.{has_prefix, str_eq, strchr, truncate}
use cellmgr.Libc.Number.{atoi}
use cellmgr.Libc.Token.{tokens}
use cellmgr.Common.Trim.{trim_in_place}
use cellmgr.Json.Escape.{json_escape, json_prop_string, json_prop_int}
use cellmgr.Parsers.Quoted.{is_line_end, normalized_at_payload, comma_separated}

-- The line is the answer's end, its head, empty, or no list.
unfoldable pub is_cell_line : Bytes → Bool
unfolding str_eq has_prefix strchr
is_cell_line [] = false
is_cell_line line =
    if str_eq line (codes "OK") || has_prefix (codes "+GTCCINFO:") line
    then false
    else elim (strchr line b',') [ none ↦ false | some _ ↦ true ]

-- `row`: 511 bytes of the line at most, and 24 fields of it at most.
unfoldable pub cell_fields : Bytes → List Bytes
unfolding tokens trim_in_place
cell_fields line = map trim_in_place (take 24 (tokens (λ c. c == b',') (truncate 512 line)))

-- `n > i ? fields[i] : ""`
abbrev pub field_at : List Bytes → ℕ → Bytes
field_at [] i = []
field_at (f ∷ fields) zero = f
field_at (f ∷ fields) (suc i) = field_at fields i

unfoldable pub cell_item : Bytes → List Bytes → Bytes
unfolding json_prop_string json_prop_int atoi
cell_item line fields =
    codes "{"
    ++ json_prop_int (codes "service") (atoi (field_at fields 0)) false
    ++ json_prop_string (codes "rat") (field_at fields 1) true
    ++ json_prop_string (codes "mcc") (field_at fields 2) true
    ++ json_prop_string (codes "mnc") (field_at fields 3) true
    ++ json_prop_string (codes "area") (field_at fields 4) true
    ++ json_prop_string (codes "cell") (field_at fields 5) true
    ++ json_prop_int (codes "earfcn") (atoi (field_at fields 6)) true
    ++ json_prop_int (codes "pci") (atoi (field_at fields 7)) true
    ++ json_prop_string (codes "band") (field_at fields 8) true
    ++ json_prop_string (codes "sinr") (field_at fields 10) true
    ++ json_prop_string (codes "rsrp") (field_at fields 12) true
    ++ json_prop_string (codes "rsrq") (field_at fields 13) true
    ++ json_prop_string (codes "raw") line true
    ++ codes "}"

-- One round of the loop, on the trimmed line.
unfoldable pub cell_of : Bytes → Option Bytes
unfolding is_cell_line cell_fields cell_item
cell_of line =
    if is_cell_line line
    then (let fields = cell_fields line in
        if ltb (length fields) 8 then none else some (cell_item line fields))
    else none

unfoldable pub cell_items : List Bytes → List Bytes
unfolding trim_in_place cell_of
cell_items [] = []
cell_items (line ∷ lines) = elim (cell_of (trim_in_place line)) [
  | none ↦ cell_items lines
  | some item ↦ item ∷ cell_items lines
]

unfoldable pub parse_gtccinfo : Bytes → Bytes
unfolding normalized_at_payload tokens cell_items comma_separated json_escape
parse_gtccinfo raw =
    let payload = normalized_at_payload raw in
    codes "{\"items\":["
    ++ comma_separated (cell_items (tokens is_line_end payload))
    ++ codes "],\"raw\":"
    ++ json_escape payload
    ++ codes "}"
