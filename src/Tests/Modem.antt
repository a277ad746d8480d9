-- ===== src/Tests/Modem.antt =====
-- Concrete runs of src/at.c, src/ofono.c and src/parsers.c.
use cellmgr.Base.{
  ℕ, zero, suc, true, false, [], ◌∷◌, ◌++◌, map, some, ◌≡◌, refl, inl, inr, arith, Bytes, codes,
}
use cellmgr.Base.Int.{ℤ, pos, negsuc}
use cellmgr.Config.Fields.{config_defaults}
use cellmgr.Command.Call.{Runner}
use cellmgr.Libc.Text.{toupper, has_prefix}
use cellmgr.Libc.Occurrences.{occurrences}
use cellmgr.At.Send.{at_send, blocked}
use cellmgr.At.Safe.{at_send-blocked}
use cellmgr.Ofono.Resolve.{choose_path, object_path}
use cellmgr.Ofono.Resolve.Best.{Best, found, choose_path-Best}
use cellmgr.Json.Grammar.{Json}
use cellmgr.Parsers.Dispatch.Syntax.{parse_at_response_json-Json}
use cellmgr.Json.Escape.{json_escape}
use cellmgr.Parsers.Quoted.{extract_quoted_after, normalized_at_payload}
use cellmgr.Parsers.Quoted.Inverse.{normalized_at_payload-json_escape}
use cellmgr.Parsers.Bands.{new_codes}
use cellmgr.Parsers.Quoted.{find_line_prefix}
use cellmgr.Parsers.Quoted.OnePass.{first_line, find_line_prefix-first_line}
use cellmgr.Parsers.Bands.Distinct.{Distinct, new_codes-Distinct}
use cellmgr.Parsers.Answer.{parse_csq}
use cellmgr.Parsers.Dispatch.{parse_at_response_json}
use cellmgr.Parsers.Quoted.{comma_separated}
use cellmgr.Libc.Token.{tokens}
use cellmgr.Common.Trim.{trim_in_place}
use cellmgr.Parsers.Dbus.{append_dbus_variant_json}
use cellmgr.Parsers.Messages.{parse_dbus_messages_json}
use cellmgr.Parsers.Messages.Objects.{objects, numbered, read_lines}
use cellmgr.Parsers.Messages.Refinement.{parse_dbus_messages_json-objects}
use cellmgr.Parsers.Dbus.{property_at}

-- The system counts the commands that it ran, and the rows of the history.
abbrev runner : Runner (ℕ × ℕ)
runner argv timeout_ms limit (ran, rows) =
    ((pos 0, record { out = some (codes "OK"); err = some []; exit_code = pos 0 }), (suc ran, rows))

abbrev count_row : Bytes → Bytes → ℤ → ℕ × ℕ → ℕ × ℕ
count_row command response exit_code (ran, rows) = (ran, suc rows)

same_letters : map toupper (codes "at+cpwroff") ≡ map toupper (codes "AT+CPWROFF")
unfolding toupper
same_letters = refl

at_send-blocked_example :
    at_send runner count_row config_defaults
      (codes " " ++ (codes "at+cpwroff" ++ codes "\r"))
      false
      (0, 0)
    ≡ ((negsuc 0, blocked), (0, 0))
at_send-blocked_example =
    at_send-blocked runner count_row config_defaults (codes " ") (codes "AT+CPWROFF")
      (codes "at+cpwroff") (codes "\r") (0, 0) (refl, tt) (inr (inl refl)) same_letters

-- `n` letters.
abbrev letters : ℕ → Bytes
letters zero = []
letters (suc n) = b'x' ∷ letters n

abbrev listing : Bytes
listing = codes "object path \"/sim\" SimManager object path \"/ril_0\" org.ofono.Modem"

choose_path-Best_example : Best (choose_path listing) (found (occurrences 11 object_path listing))
choose_path-Best_example = choose_path-Best listing

normalized_at_payload-json_escape_example :
    normalized_at_payload (codes "string " ++ (json_escape (codes "+CSQ: 20,99\r\n") ++ []))
    ≡ codes "+CSQ: 20,99\r\n"
normalized_at_payload-json_escape_example =
    normalized_at_payload-json_escape (codes "+CSQ: 20,99\r\n") [] (ground arith)

new_codes-Distinct_example :
    Distinct (pos 103 ∷ []) (new_codes (pos 103 ∷ pos 5078 ∷ pos 7 ∷ pos 5078 ∷ []) (pos 103 ∷ []))
new_codes-Distinct_example =
    new_codes-Distinct (pos 103 ∷ pos 5078 ∷ pos 7 ∷ pos 5078 ∷ []) (pos 103 ∷ []) (omega arith)

csq_answer :
    parse_csq (codes "\r\n+CSQ: 20,99\r\nOK")
    ≡ codes "{\"rssi\":20,\"ber\":99,\"rssi_dbm\":-73,\"raw\":\"\\r\\n+CSQ: 20,99\\r\\nOK\"}"
unfolding parse_csq
csq_answer = refl

cops_answer :
    parse_at_response_json (some (codes "cops")) (codes "+COPS: 0,0,\"Net\",7")
    ≡ codes
        "{\"mode\":0,\"format\":0,\"operator\":\"Net\",\"act\":7,\"raw\":\"+COPS: 0,0,\\\"Net\\\",7\"}"
unfolding parse_at_response_json
cops_answer = refl

gtact_answer :
    parse_at_response_json (some (codes "gtact")) (codes "BAND_NR_78 103,5078")
    ≡ codes
        "{\"bands\":[{\"rat\":\"NR\",\"code\":5078,\"band\":78,\"label\":\"n78\"},{\"rat\":\"LTE\",\"code\":103,\"band\":3,\"label\":\"B3\"}],\"raw\":\"BAND_NR_78 103,5078\"}"
unfolding parse_at_response_json
gtact_answer = refl

cmgl_answer :
    parse_at_response_json
      (some (codes "cmgl"))
      (codes "+CMGL: 3,\"REC READ\",\"+49\",\"x\",\"24/01/01\"\r\nhi\r\nyou\r\nOK")
    ≡ codes
        "{\"parser\":\"cmgl\",\"items\":[{\"index\":3,\"status\":\"REC READ\",\"sender\":\"+49\",\"timestamp\":\"24/01/01\",\"body\":\"hi\\nyou\"}],\"raw\":\"+CMGL: 3,\\\"REC READ\\\",\\\"+49\\\",\\\"x\\\",\\\"24/01/01\\\"\\r\\nhi\\r\\nyou\\r\\nOK\"}"
unfolding parse_at_response_json
cmgl_answer = refl

boolean_property :
    property_at (codes "dict entry( string \"Powered\" variant boolean true )")
    ≡ some (codes "Powered", codes "true")
unfolding property_at
boolean_property = refl

abbrev messages : Bytes
messages =
    codes
      "object path \"/sms1\"\n string \"Sender\"\n variant string \"+49\"\n)\nobject path \"/sms2\"\n"

parse_dbus_messages_json-objects_example :
    parse_dbus_messages_json messages
    ≡ codes "{\"items\":["
      ++ comma_separated (numbered 0 (objects messages))
      ++ codes "],\"raw\":"
      ++ json_escape messages
      ++ codes "}"
parse_dbus_messages_json-objects_example = parse_dbus_messages_json-objects messages

two_objects :
    objects messages
    ≡ record { path = codes "/sms1"; props = codes "\"Sender\":\"+49\"" ∷ [] }
      ∷ record { path = codes "/sms2"; props = [] }
      ∷ []
unfolding extract_quoted_after read_lines tokens has_prefix trim_in_place json_escape
    append_dbus_variant_json
two_objects = refl

find_line_prefix-first_line_example :
    find_line_prefix (codes "OK\r\n+CSQ: 20") (codes "+CSQ:")
    ≡ first_line true (codes "+CSQ:") (codes "OK\r\n+CSQ: 20")
find_line_prefix-first_line_example =
    find_line_prefix-first_line b'+' (codes "CSQ:") (codes "OK\r\n+CSQ: 20") refl

csq_line : find_line_prefix (codes "OK\r\n+CSQ: 20") (codes "+CSQ:") ≡ some (codes " 20")
unfolding find_line_prefix
csq_line = refl

parse_at_response_json-Json_example : Json (
    parse_at_response_json (some (codes "gtact")) (codes "+GTACT: 20,6,,BAND_LTE_3,103,5041\r\nOK"))
parse_at_response_json-Json_example =
    parse_at_response_json-Json (some (codes "gtact"))
      (codes "+GTACT: 20,6,,BAND_LTE_3,103,5041\r\nOK")
