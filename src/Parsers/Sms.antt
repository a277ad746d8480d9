-- ===== src/Parsers/Sms.antt =====
-- `parse_sms_list_or_read` of src/parsers.c: the stored messages that `AT+CMGL` lists, and the one
-- that `AT+CMGR` reads.
pub mod Syntax
use cellmgr.Base.{
  ℕ, zero, suc, ◌-◌, Bool, true, false, not, ◌||◌, List, [], ◌∷◌, ◌++◌, map, Option, none, some,
  leb, if◌then◌else◌, Bytes, codes, length, take, drop,
}
use cellmgr.Base.Int.{ℤ, pos}
use cellmgr.Libc.Text.{has_prefix, str_eq, strstr, skip_while}
use cellmgr.Libc.Token.{tokens}
use cellmgr.Libc.Scan.{Directive, sscanf, int_at, text_at}
use cellmgr.Common.Trim.{trim_in_place}
use cellmgr.Json.Escape.{json_prop_string, json_prop_int}
use cellmgr.Parsers.Quoted.{is_line_end, normalized_at_payload, comma_separated}
use cellmgr.Parsers.Answer.{quoted_field, comma}

-- `strncat(body, s, sizeof(body) - strlen(body) - 1)`, where `body` has 512 bytes.
abbrev body_append : Bytes → Bytes → Bytes
body_append body s = body ++ take (511 - length body) s

-- One round of the loop that collects `body`.
unfoldable pub body_line : Bytes → Bytes → Bytes
body_line [] next = body_append [] next
body_line (c ∷ body) next = body_append (body_append (c ∷ body) (10 ∷ [])) next

unfoldable pub ends_body : Bytes → Bool
unfolding has_prefix str_eq
ends_body line = has_prefix (codes "+CMGL:") line || str_eq line (codes "OK")

abbrev pub list_fields : List Directive
list_fields =
    Directive.space ∷ Directive.int ∷ comma ∷ quoted_field 63
    ++ comma ∷ quoted_field 95
    ++ comma ∷ quoted_field 63
    ++ comma ∷ quoted_field 63

abbrev pub read_fields : List Directive
read_fields =
    Directive.space ∷ quoted_field 63
    ++ comma ∷ quoted_field 95
    ++ comma ∷ quoted_field 63
    ++ comma ∷ quoted_field 63

pub record Message : Type 0 where
  pub index : ℤ
  pub status : Bytes
  pub sender : Bytes
  pub timestamp : Bytes
  pub body : Bytes

-- The fields of the head `line` of a listed message.
unfoldable pub listed : Bytes → Bytes → Message
unfolding sscanf
listed line body =
    let items = sscanf list_fields (drop 6 line) in
    record {
      index = int_at items 0 (pos 0);
      status = text_at items 1 [];
      sender = text_at items 2 [];
      timestamp = text_at items 4 [];
      body = body;
    }

abbrev pub is_head : Bytes → Bool
is_head line = has_prefix (codes "+CMGL:") line

-- The outer loop of `cmgl`, with the inner one in it: a message that is open has its head and the
-- body read so far.
unfoldable pub listed_messages : Option (Bytes × Bytes) → List Bytes → List Message
unfolding listed has_prefix ends_body body_line
listed_messages none [] = []
listed_messages (some (head, body)) [] = listed head body ∷ []
listed_messages none (line ∷ lines) =
    listed_messages (if is_head line then some (line, []) else none) lines
listed_messages (some (head, body)) (line ∷ lines) = elim (ends_body line) [
  | true ↦ listed head body ∷ listed_messages (if is_head line then some (line, []) else none) lines
  | false ↦ listed_messages (some (head, body_line body line)) lines
]

-- `strpbrk(s, "\r\n")` and the line ends there skipped.
unfoldable pub next_line : Bytes → Option Bytes
unfolding skip_while
next_line s = elim (skip_while (λ c. not (is_line_end c)) s) [
  | [] ↦ none
  | c ∷ rest ↦ some (skip_while is_line_end (c ∷ rest))
]

-- The loop of `cmgr` up to the head; `fuel` lines at most are tried.
unfoldable pub find_head : ℕ → Bytes → Option Bytes
unfolding has_prefix next_line
find_head zero line = none
find_head (suc fuel) [] = none
find_head (suc fuel) (c ∷ line) = elim (has_prefix (codes "+CMGR:") (c ∷ line)) [
  | true ↦ some (c ∷ line)
  | false ↦ elim (next_line (c ∷ line)) [ none ↦ none | some rest ↦ find_head fuel rest ]
]

-- Up to `\nOK`, 511 bytes at most, trimmed.
unfoldable pub read_body : Bytes → Bytes
unfolding strstr trim_in_place
read_body start =
    let len : ℕ = elim (strstr start (10 ∷ codes "OK")) [
      | none ↦ length start
      | some ok ↦ length start - length ok
    ] in
    trim_in_place (take (if leb 512 len then 511 else len) start)

-- The message that `cmgr` reads; a line that moves on is shorter, so the length is enough fuel.
unfoldable pub read_message : Bytes → Message
unfolding find_head sscanf next_line read_body
read_message payload = elim (find_head (suc (length payload)) payload) [
  | none ↦ record { index = pos 1; status = []; sender = []; timestamp = []; body = [] }
  | some line ↦
      let items = sscanf read_fields (drop 6 line) in
      record {
        index = pos 1;
        status = text_at items 0 [];
        sender = text_at items 1 [];
        timestamp = text_at items 3 [];
        body = elim (next_line line) [ none ↦ [] | some start ↦ read_body start ];
      }
]

abbrev message_props : Message → Bool → Bytes
message_props m comma =
    json_prop_string (codes "status") m.status comma
    ++ json_prop_string (codes "sender") m.sender true
    ++ json_prop_string (codes "timestamp") m.timestamp true
    ++ json_prop_string (codes "body") m.body true

unfoldable pub message_item : Message → Bytes
unfolding json_prop_int json_prop_string
message_item m =
    codes "{" ++ json_prop_int (codes "index") m.index false ++ message_props m true ++ codes "}"

unfoldable pub parse_sms_list_or_read : Bytes → Bytes → Bytes
unfolding normalized_at_payload str_eq tokens listed_messages read_message message_item
    comma_separated json_prop_string
parse_sms_list_or_read parser raw =
    let payload = normalized_at_payload raw in
    codes "{"
    ++ json_prop_string (codes "parser") parser false
    ++ (if str_eq parser (codes "cmgl")
        then (codes ",\"items\":["
            ++ comma_separated
                (map message_item (listed_messages none (tokens is_line_end payload)))
            ++ codes "]")
        else (let m = read_message payload in
            codes ",\"items\":["
            ++ message_item m
            ++ codes "],\"message\":{"
            ++ message_props m false
            ++ codes "}"))
    ++ json_prop_string (codes "raw") payload true
    ++ codes "}"
