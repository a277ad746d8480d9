-- ===== src/Parsers/Cells/Syntax.antt =====
-- What the parser of cells writes is JSON, whatever the modem answers.
use cellmgr.Base.{
  List, [], ◌∷◌, ◌++◌, none, some, inl, inr, Option, subst, Bytes, codes, All, append_assoc,
  Option-cases, Bool-cases, length, ltb,
}
use cellmgr.Libc.Number.{atoi}
use cellmgr.Libc.Token.{tokens}
use cellmgr.Common.Trim.{trim_in_place}
use cellmgr.Json.Escape.{escape_byte, escape_bytes, json_escape}
use cellmgr.Json.Grammar.{Json, object, first_int, next_string, next_int}
use cellmgr.Parsers.Quoted.{is_line_end, comma_separated, normalized_at_payload}
use cellmgr.Parsers.Syntax.{comma_separated-Json, listed_raw-Json}
use cellmgr.Parsers.Cells.{
  is_cell_line, cell_fields, field_at, cell_item, cell_of, cell_items, parse_gtccinfo,
}

cell_item-Json : (line : Bytes) (fields : List Bytes) → Json (cell_item line fields)
unfolding cell_item
cell_item-Json line fields = object _ (
    next_string _ (codes "raw") line (
      next_string _ (codes "rsrq") (field_at fields 13) (
        next_string _ (codes "rsrp") (field_at fields 12) (
          next_string _ (codes "sinr") (field_at fields 10) (
            next_string _ (codes "band") (field_at fields 8) (
              next_int _ (codes "pci") (atoi (field_at fields 7)) (
                next_int _ (codes "earfcn") (atoi (field_at fields 6)) (
                  next_string _ (codes "cell") (field_at fields 5) (
                    next_string _ (codes "area") (field_at fields 4) (
                      next_string _ (codes "mnc") (field_at fields 3) (
                        next_string _ (codes "mcc") (field_at fields 2) (
                          next_string _ (codes "rat") (field_at fields 1)
                            (first_int (codes "service") (atoi (field_at fields 0)))))))))))))))

abbrev JsonIfSome : Option Bytes → Type 0
JsonIfSome none = Unit
JsonIfSome (some item) = Json item

cell_of-JsonIfSome : (line : Bytes) → JsonIfSome (cell_of line)
cell_of-JsonIfSome line = elim (Bool-cases (is_cell_line line)) [
  | inr e ↦ unfold cell_of in (rw e tt)
  | inl e ↦ elim (Bool-cases (ltb (length (cell_fields line)) 8)) [
    | inl k ↦ unfold cell_of in (rw (e, k) tt)
    | inr k ↦ unfold cell_of in (rw (e, k) (cell_item-Json line (cell_fields line)))
  ]
]

cell_items-Json : (lines : List Bytes) → All Json (cell_items lines)
unfolding cell_items
cell_items-Json [] = tt
cell_items-Json (line ∷ lines) = elim (Option-cases (cell_of (trim_in_place line))) [
  | inl e ↦ rw (cell_items, e) (cell_items-Json lines)
  | inr (item, e) ↦
      rw (cell_items, e)
        (subst JsonIfSome e (cell_of-JsonIfSome (trim_in_place line)), cell_items-Json lines)
]

pub parse_gtccinfo-Json : (raw : Bytes) → Json (parse_gtccinfo raw)
unfolding parse_gtccinfo json_escape escape_bytes escape_byte
parse_gtccinfo-Json raw =
    let payload = normalized_at_payload raw in
    let items = cell_items (tokens is_line_end payload) in
    subst Json (simp append_assoc) (
      listed_raw-Json (codes "items") (codes "[" ++ comma_separated items ++ codes "]") payload
        (comma_separated-Json items (cell_items-Json (tokens is_line_end payload))))
