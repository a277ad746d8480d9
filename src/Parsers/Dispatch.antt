-- ===== src/Parsers/Dispatch.antt =====
-- `parse_at_response_json` of src/parsers.c: the parser that a profile names for a command.
pub mod Syntax
use cellmgr.Base.{◌||◌, Option, none, some, if◌then◌else◌, Bytes, codes}
use cellmgr.Libc.Text.{str_eq}
use cellmgr.Parsers.Answer.{
  json_raw_with_parser, parse_csq, parse_cops, parse_registration, parse_gtcelllock, parse_cgeqos,
}
use cellmgr.Parsers.Bands.{parse_gtact}
use cellmgr.Parsers.Cells.{parse_gtccinfo}
use cellmgr.Parsers.Sms.{parse_sms_list_or_read}

-- The chain of comparisons, for a parser that is not NULL.
unfoldable pub parse_as : Bytes → Bytes → Bytes
unfolding str_eq json_raw_with_parser parse_csq parse_cops parse_registration parse_gtact
    parse_gtcelllock parse_gtccinfo parse_cgeqos parse_sms_list_or_read
parse_as parser raw =
    if str_eq parser (codes "raw") || str_eq parser (codes "ok_error")
    then json_raw_with_parser parser raw
    else if str_eq parser (codes "csq")
    then parse_csq raw
    else if str_eq parser (codes "cops")
    then parse_cops raw
    else if str_eq parser (codes "creg")
    then parse_registration raw (codes "+CREG:")
    else if str_eq parser (codes "cgreg")
    then parse_registration raw (codes "+CGREG:")
    else if str_eq parser (codes "cereg")
    then parse_registration raw (codes "+CEREG:")
    else if str_eq parser (codes "c5greg")
    then parse_registration raw (codes "+C5GREG:")
    else if str_eq parser (codes "gtact")
    then parse_gtact raw
    else if str_eq parser (codes "gtcelllock")
    then parse_gtcelllock raw
    else if str_eq parser (codes "gtccinfo")
    then parse_gtccinfo raw
    else if str_eq parser (codes "cgeqos")
    then parse_cgeqos raw
    else if str_eq parser (codes "cmgl") || str_eq parser (codes "cmgr")
    then parse_sms_list_or_read parser raw
    else json_raw_with_parser parser raw

unfoldable pub parse_at_response_json : Option Bytes → Bytes → Bytes
unfolding json_raw_with_parser parse_as
parse_at_response_json none raw = json_raw_with_parser (codes "raw") raw
parse_at_response_json (some parser) raw = parse_as parser raw
