-- ===== src/Parsers/Sms/Syntax.antt =====
-- What the parser of stored messages writes is JSON, whatever the modem answers.
use cellmgr.Base.{false, ◌++◌, map, none, subst, Bytes, codes, append_assoc}
use cellmgr.Libc.Text.{str_eq}
use cellmgr.Libc.Token.{tokens}
use cellmgr.Json.Escape.{escape_byte, escape_bytes, json_escape, json_prop_string}
use cellmgr.Json.Grammar.{
  Json, Members, object, array, element, first_string, first_int, next_string, next_member, on_if,
}
use cellmgr.Parsers.Quoted.{is_line_end, normalized_at_payload, comma_separated}
use cellmgr.Parsers.Syntax.{comma_separated-Json, All-items}
use cellmgr.Parsers.Sms.{
  Message, message_props, message_item, listed_messages, read_message, parse_sms_list_or_read,
}

message_item-Json : (m : Message) → Json (message_item m)
unfolding message_item
message_item-Json m = subst Json (simp append_assoc) (
    object _ (
      next_string _ (codes "body") m.body (
        next_string _ (codes "timestamp") m.timestamp (
          next_string _ (codes "sender") m.sender
            (next_string _ (codes "status") m.status (first_int (codes "index") m.index))))))

message_props-Members : (m : Message) → Members (codes "{" ++ message_props m false)
message_props-Members m = next_string _ (codes "body") m.body (
    next_string _ (codes "timestamp") m.timestamp
      (next_string _ (codes "sender") m.sender (first_string (codes "status") m.status)))

pub parse_sms_list_or_read-Json : (parser raw : Bytes) → Json (parse_sms_list_or_read parser raw)
unfolding parse_sms_list_or_read json_escape escape_bytes escape_byte
parse_sms_list_or_read-Json parser raw =
    let payload = normalized_at_payload raw in
    let messages = map message_item (listed_messages none (tokens is_line_end payload)) in
    let m = read_message payload in
    let front = codes "{" ++ json_prop_string (codes "parser") parser false in
    let named : Members front = first_string (codes "parser") parser in
    object _ (
      next_string _ (codes "raw") payload (
        on_if (λ t. Members (front ++ t)) (str_eq parser (codes "cmgl")) _ _
          (λ e.
            next_member front (codes "items") (codes "[" ++ comma_separated messages ++ codes "]")
              named (comma_separated-Json messages (All-items message_item message_item-Json _)))
          (λ e. subst Members (simp append_assoc) (
            next_member _ (codes "message") (codes "{" ++ message_props m false ++ codes "}")
              (next_member front (codes "items") (codes "[" ++ message_item m ++ codes "]") named
                (array _ (element (message_item m) (message_item-Json m))))
              (object _ (message_props-Members m))))))
