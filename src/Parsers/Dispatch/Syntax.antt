-- ===== src/Parsers/Dispatch/Syntax.antt =====
-- Every answer of `parse_at_response_json` of src/parsers.c is JSON.
use cellmgr.Base.{◌||◌, Option, none, some, Bytes, codes}
use cellmgr.Libc.Text.{str_eq}
use cellmgr.Json.Grammar.{Json, on_if}
use cellmgr.Parsers.Answer.Syntax.{
  json_raw_with_parser-Json, parse_csq-Json, parse_cops-Json, parse_registration-Json,
  parse_gtcelllock-Json, parse_cgeqos-Json,
}
use cellmgr.Parsers.Bands.Syntax.{parse_gtact-Json}
use cellmgr.Parsers.Cells.Syntax.{parse_gtccinfo-Json}
use cellmgr.Parsers.Sms.Syntax.{parse_sms_list_or_read-Json}
use cellmgr.Parsers.Dispatch.{parse_as, parse_at_response_json}

parse_as-Json : (parser raw : Bytes) → Json (parse_as parser raw)
unfolding parse_as
parse_as-Json parser raw =
    on_if Json (str_eq parser (codes "raw") || str_eq parser (codes "ok_error")) _ _
      (λ e. json_raw_with_parser-Json parser raw)
      (λ e.
        on_if Json (str_eq parser (codes "csq")) _ _ (λ e. parse_csq-Json raw)
          (λ e.
            on_if Json (str_eq parser (codes "cops")) _ _ (λ e. parse_cops-Json raw)
              (λ e.
                on_if Json (str_eq parser (codes "creg")) _ _
                  (λ e. parse_registration-Json raw (codes "+CREG:"))
                  (λ e.
                    on_if Json (str_eq parser (codes "cgreg")) _ _
                      (λ e. parse_registration-Json raw (codes "+CGREG:"))
                      (λ e.
                        on_if Json (str_eq parser (codes "cereg")) _ _
                          (λ e. parse_registration-Json raw (codes "+CEREG:"))
                          (λ e.
                            on_if Json (str_eq parser (codes "c5greg")) _ _
                              (λ e. parse_registration-Json raw (codes "+C5GREG:"))
                              (λ e.
                                on_if Json (str_eq parser (codes "gtact")) _ _
                                  (λ e. parse_gtact-Json raw)
                                  (λ e.
                                    on_if Json (str_eq parser (codes "gtcelllock")) _ _
                                      (λ e. parse_gtcelllock-Json raw)
                                      (λ e.
                                        on_if Json (str_eq parser (codes "gtccinfo")) _ _
                                          (λ e. parse_gtccinfo-Json raw)
                                          (λ e.
                                            on_if Json (str_eq parser (codes "cgeqos")) _ _
                                              (λ e. parse_cgeqos-Json raw)
                                              (λ e.
                                                on_if Json
                                                  (str_eq parser (codes "cmgl")
                                                    || str_eq parser (codes "cmgr"))
                                                  _ _ (λ e. parse_sms_list_or_read-Json parser raw)
                                                  (λ e.
                                                    json_raw_with_parser-Json parser raw))))))))))))

-- Whatever the modem answers, and whichever parser a profile names or leaves out, the answer of
-- `parse_at_response_json` is one value of JSON by its grammar (RFC 8259, without blanks).
pub parse_at_response_json-Json :
    (parser : Option Bytes) (raw : Bytes) → Json (parse_at_response_json parser raw)
unfolding parse_at_response_json
parse_at_response_json-Json none raw = json_raw_with_parser-Json (codes "raw") raw
parse_at_response_json-Json (some parser) raw = parse_as-Json parser raw
