-- ===== src/Parsers/Answer/Syntax.antt =====
-- What the parsers of Answer write is JSON, whatever the modem answers.
use cellmgr.Base.{
  true, false, [], ◌∷◌, ◌++◌, map, if◌then◌else◌, subst, Bytes, codes, drop, append_assoc,
}
use cellmgr.Base.Int.{pos, eqb_ℤ}
use cellmgr.Libc.Occurrences.{occurrences}
use cellmgr.Libc.Scan.{Directive, sscanf, int_at, text_at}
use cellmgr.Json.Escape.{escape_byte, escape_bytes, json_escape, json_prop_int}
use cellmgr.Json.Grammar.{
  Json, Members, object, null, first_string, first_int, next_string, next_int, next_member, on_if,
}
use cellmgr.Parsers.Quoted.{comma_separated, normalized_at_payload}
use cellmgr.Parsers.Syntax.{comma_separated-Json, listed_raw-Json, All-items}
use cellmgr.Parsers.Answer.{
  csq_items, cops_items, registration_items, registration_retry, gtcelllock_items, unset, comma,
  rssi_dbm, json_raw_with_parser, parse_csq, parse_cops, parse_registration, parse_gtcelllock,
  cgeqos_item, parse_cgeqos,
}

pub json_raw_with_parser-Json : (parser raw : Bytes) → Json (json_raw_with_parser parser raw)
unfolding json_raw_with_parser
json_raw_with_parser-Json parser raw =
    object _ (
      next_string _ (codes "raw") (normalized_at_payload raw)
        (first_string (codes "parser") parser))

pub parse_cops-Json : (raw : Bytes) → Json (parse_cops raw)
unfolding parse_cops
parse_cops-Json raw =
    let payload = normalized_at_payload raw in
    let items = cops_items payload in
    object _ (
      next_string _ (codes "raw") payload (
        next_int _ (codes "act") (int_at items 3 unset) (
          next_string _ (codes "operator") (text_at items 2 []) (
            next_int _ (codes "format") (int_at items 1 unset)
              (first_int (codes "mode") (int_at items 0 unset))))))

pub parse_registration-Json : (raw prefix : Bytes) → Json (parse_registration raw prefix)
unfolding parse_registration
parse_registration-Json raw prefix =
    let payload = normalized_at_payload raw in
    let items = registration_items payload prefix in
    let n = int_at items 0 unset in
    let stat = int_at items 1 unset in
    let again = registration_retry stat payload prefix in
    object _ (
      next_string _ (codes "raw") payload (
        next_int _ (codes "act") (int_at items 4 unset) (
          next_string _ (codes "cell") (text_at items 3 []) (
            next_string _ (codes "area") (text_at items 2 []) (
              next_int _ (codes "stat") (int_at again 1 stat)
                (first_int (codes "n") (int_at again 0 n)))))))

pub parse_gtcelllock-Json : (raw : Bytes) → Json (parse_gtcelllock raw)
unfolding parse_gtcelllock
parse_gtcelllock-Json raw =
    let payload = normalized_at_payload raw in
    let items = gtcelllock_items payload in
    object _ (
      next_string _ (codes "raw") payload (
        next_int _ (codes "pci") (int_at items 4 unset) (
          next_int _ (codes "earfcn") (int_at items 3 unset) (
            next_int _ (codes "type") (int_at items 2 unset) (
              next_int _ (codes "rat") (int_at items 1 unset)
                (first_int (codes "mode") (int_at items 0 unset)))))))

cgeqos_item-Json : (p : Bytes) → Json (cgeqos_item p)
unfolding cgeqos_item
cgeqos_item-Json p =
    let items = sscanf (Directive.space ∷ Directive.int ∷ comma ∷ Directive.int ∷ []) (drop 8 p) in
    object _ (
      next_int _ (codes "qci") (int_at items 1 unset)
        (first_int (codes "cid") (int_at items 0 unset)))

pub parse_csq-Json : (raw : Bytes) → Json (parse_csq raw)
unfolding parse_csq json_escape escape_bytes escape_byte
parse_csq-Json raw =
    let payload = normalized_at_payload raw in
    let items = csq_items payload in
    let rssi = int_at items 0 unset in
    let dbm = rssi_dbm rssi in
    let front =
      codes "{"
      ++ json_prop_int (codes "rssi") rssi false
      ++ json_prop_int (codes "ber") (int_at items 1 unset) true in
    let two : Members front =
      next_int _ (codes "ber") (int_at items 1 unset) (first_int (codes "rssi") rssi) in
    let three : Members (
        front
        ++ (if eqb_ℤ dbm (pos 0)
            then codes ",\"rssi_dbm\":null"
            else json_prop_int (codes "rssi_dbm") dbm true)) =
      on_if (λ t. Members (front ++ t)) (eqb_ℤ dbm (pos 0)) _ _
        (λ e. next_member front (codes "rssi_dbm") (codes "null") two null)
        (λ e. next_int front (codes "rssi_dbm") dbm two) in
    object _ (next_string _ (codes "raw") payload three)

pub parse_cgeqos-Json : (raw : Bytes) → Json (parse_cgeqos raw)
unfolding parse_cgeqos json_escape escape_bytes escape_byte
parse_cgeqos-Json raw =
    let payload = normalized_at_payload raw in
    let list = comma_separated (map cgeqos_item (occurrences 8 (codes "+CGEQOS:") payload)) in
    subst Json (simp append_assoc) (
      listed_raw-Json (codes "items") (codes "[" ++ list ++ codes "]") payload (
        comma_separated-Json (map cgeqos_item (occurrences 8 (codes "+CGEQOS:") payload))
          (All-items cgeqos_item cgeqos_item-Json _)))
