-- ===== src/Parsers/Answer.antt =====
-- The answers of one line in src/parsers.c: signal, operator, registration, cell lock and quality of
-- service, and the raw answer. A function is the text that its buffer ends with.
pub mod Syntax
use cellmgr.Base.{
  ℕ, ◌*◌, leb, map, true, false, List, [], ◌∷◌, ◌++◌, none, some, if◌then◌else◌, Bytes, codes, drop,
}
use cellmgr.Base.Int.{ℤ, pos, negsuc, ltb_ℤ, eqb_ℤ, sub_ℕ}
use cellmgr.Libc.Occurrences.{occurrences}
use cellmgr.Libc.Scan.{Directive, Item, sscanf, int_at, text_at}
use cellmgr.Json.Escape.{json_escape, json_prop_string, json_prop_int}
use cellmgr.Parsers.Quoted.{find_line_prefix, comma_separated, normalized_at_payload}

-- The items behind `prefix`, none if no line begins with it.
abbrev line_items : Bytes → Bytes → List Directive → List Item
line_items payload prefix directives = elim (find_line_prefix payload prefix) [
  | none ↦ []
  | some p ↦ sscanf directives p
]

abbrev pub quoted_field : ℕ → List Directive
quoted_field width = Directive.lit b'"' ∷ Directive.until width b'"' ∷ Directive.lit b'"' ∷ []

abbrev pub unset : ℤ
unset = negsuc 0

abbrev pub comma : Directive
comma = Directive.lit b','

unfoldable pub json_raw_with_parser : Bytes → Bytes → Bytes
unfolding normalized_at_payload json_prop_string
json_raw_with_parser parser raw =
    codes "{"
    ++ json_prop_string (codes "parser") parser false
    ++ json_prop_string (codes "raw") (normalized_at_payload raw) true
    ++ codes "}"

-- `(rssi >= 0 && rssi <= 31) ? -113 + 2 * rssi : 0`
unfoldable pub rssi_dbm : ℤ → ℤ
rssi_dbm (pos rssi) = if leb rssi 31 then sub_ℕ (2 * rssi) 113 else pos 0
rssi_dbm (negsuc _) = pos 0

abbrev csq_items : Bytes → List Item
csq_items payload =
    line_items payload (codes "+CSQ:")
      (Directive.space ∷ Directive.int ∷ comma ∷ Directive.int ∷ [])

unfoldable pub parse_csq : Bytes → Bytes
unfolding find_line_prefix sscanf normalized_at_payload rssi_dbm json_prop_int json_prop_string
parse_csq raw =
    let payload = normalized_at_payload raw in
    let items = csq_items payload in
    let rssi = int_at items 0 unset in
    let dbm = rssi_dbm rssi in
    codes "{"
    ++ json_prop_int (codes "rssi") rssi false
    ++ json_prop_int (codes "ber") (int_at items 1 unset) true
    ++ (if eqb_ℤ dbm (pos 0)
        then codes ",\"rssi_dbm\":null"
        else json_prop_int (codes "rssi_dbm") dbm true)
    ++ json_prop_string (codes "raw") payload true
    ++ codes "}"

abbrev cops_items : Bytes → List Item
cops_items payload = line_items payload (codes "+COPS:") (
    Directive.space ∷ Directive.int ∷ comma ∷ Directive.int ∷ comma ∷ quoted_field 127
    ++ comma ∷ Directive.int ∷ [])

unfoldable pub parse_cops : Bytes → Bytes
unfolding find_line_prefix sscanf normalized_at_payload json_prop_int json_prop_string
parse_cops raw =
    let payload = normalized_at_payload raw in
    let items = cops_items payload in
    codes "{"
    ++ json_prop_int (codes "mode") (int_at items 0 unset) false
    ++ json_prop_int (codes "format") (int_at items 1 unset) true
    ++ json_prop_string (codes "operator") (text_at items 2 []) true
    ++ json_prop_int (codes "act") (int_at items 3 unset) true
    ++ json_prop_string (codes "raw") payload true
    ++ codes "}"

-- The first call of `sscanf`, and the second, which is made while `stat` is negative.
abbrev registration_items : Bytes → Bytes → List Item
registration_items payload prefix = line_items payload prefix (
    Directive.space ∷ Directive.int ∷ comma ∷ Directive.int ∷ comma ∷ quoted_field 63
    ++ comma ∷ quoted_field 63
    ++ comma ∷ Directive.int ∷ [])

abbrev registration_retry : ℤ → Bytes → Bytes → List Item
registration_retry stat payload prefix =
    if ltb_ℤ stat (pos 0)
    then line_items payload prefix (Directive.space ∷ Directive.int ∷ comma ∷ Directive.int ∷ [])
    else []

unfoldable pub parse_registration : Bytes → Bytes → Bytes
unfolding find_line_prefix sscanf normalized_at_payload json_prop_int json_prop_string
parse_registration raw prefix =
    let payload = normalized_at_payload raw in
    let items = registration_items payload prefix in
    let n = int_at items 0 unset in
    let stat = int_at items 1 unset in
    let again = registration_retry stat payload prefix in
    codes "{"
    ++ json_prop_int (codes "n") (int_at again 0 n) false
    ++ json_prop_int (codes "stat") (int_at again 1 stat) true
    ++ json_prop_string (codes "area") (text_at items 2 []) true
    ++ json_prop_string (codes "cell") (text_at items 3 []) true
    ++ json_prop_int (codes "act") (int_at items 4 unset) true
    ++ json_prop_string (codes "raw") payload true
    ++ codes "}"

abbrev gtcelllock_items : Bytes → List Item
gtcelllock_items payload = line_items payload (codes "+GTCELLLOCK:") (
    Directive.space ∷ Directive.int ∷ comma ∷ Directive.int ∷ comma ∷ Directive.int ∷ comma
    ∷ Directive.int ∷ comma ∷ Directive.int ∷ [])

unfoldable pub parse_gtcelllock : Bytes → Bytes
unfolding find_line_prefix sscanf normalized_at_payload json_prop_int json_prop_string
parse_gtcelllock raw =
    let payload = normalized_at_payload raw in
    let items = gtcelllock_items payload in
    codes "{"
    ++ json_prop_int (codes "mode") (int_at items 0 unset) false
    ++ json_prop_int (codes "rat") (int_at items 1 unset) true
    ++ json_prop_int (codes "type") (int_at items 2 unset) true
    ++ json_prop_int (codes "earfcn") (int_at items 3 unset) true
    ++ json_prop_int (codes "pci") (int_at items 4 unset) true
    ++ json_prop_string (codes "raw") payload true
    ++ codes "}"

-- One round of the loop of `parse_cgeqos`, at a place of `+CGEQOS:`.
unfoldable pub cgeqos_item : Bytes → Bytes
unfolding sscanf json_prop_int
cgeqos_item p =
    let items = sscanf (Directive.space ∷ Directive.int ∷ comma ∷ Directive.int ∷ []) (drop 8 p) in
    codes "{"
    ++ json_prop_int (codes "cid") (int_at items 0 unset) false
    ++ json_prop_int (codes "qci") (int_at items 1 unset) true
    ++ codes "}"

unfoldable pub parse_cgeqos : Bytes → Bytes
unfolding occurrences cgeqos_item normalized_at_payload json_escape
parse_cgeqos raw =
    let payload = normalized_at_payload raw in
    codes "{\"items\":["
    ++ comma_separated (map cgeqos_item (occurrences 8 (codes "+CGEQOS:") payload))
    ++ codes "],\"raw\":"
    ++ json_escape payload
    ++ codes "}"
