-- ===== src/Http/Written/Radio.antt =====
-- `api_modem_radio` of src/http.c answers with JSON.
use cellmgr.Base.{
  true, false, List, [], ◌∷◌, ◌++◌, some, Bytes, codes, subst, sym, append_assoc, append-nil,
}
use cellmgr.Command.Capture.{CommandResult}
use cellmgr.Config.Fields.{AppConfig}
use cellmgr.System.{System}
use cellmgr.Json.Escape.{escape_byte, escape_bytes, json_escape}
use cellmgr.Json.Grammar.{
  Json, Members, object, no_members, first_member, next_member, json_escape-Json, show_int-Json,
}
use cellmgr.Libc.Number.{show_int}
use cellmgr.Parsers.Dispatch.{parse_at_response_json}
use cellmgr.Parsers.Dispatch.Syntax.{parse_at_response_json-Json}
use cellmgr.Http.State.{out_text, send_at}
use cellmgr.Http.Template.{profile_cmd_or_default}
use cellmgr.Http.Modem.{RadioItem, radio_items, append_at_cap_result, radio_text, api_modem_radio}
use cellmgr.Http.Written.{Written, success-Written}

module _ {World : Type 0} (sys : System World) where
  -- What `append_at_cap_result` appends behind the comma, if there is one.
  reading_text-Json :
      (name cmd parser : Bytes) (res : CommandResult)
      → Json (
          codes "{\"command\":"
          ++ json_escape cmd
          ++ codes ",\"exit_code\":"
          ++ show_int res.exit_code
          ++ codes ",\"parsed\":"
          ++ parse_at_response_json (some parser) (out_text res)
          ++ codes "}")
  unfolding json_escape escape_bytes escape_byte
  reading_text-Json name cmd parser res = subst Json (simp append_assoc) (
      object _ (
        next_member _ (codes "parsed") (parse_at_response_json (some parser) (out_text res))
          (next_member _ (codes "exit_code") (show_int res.exit_code)
            (first_member (codes "command") (json_escape cmd) (json_escape-Json cmd))
            (show_int-Json res.exit_code))
          (parse_at_response_json-Json (some parser) (out_text res))))

  next_reading-Members :
      (s : Bytes) (cfg : AppConfig) (reading : RadioItem) (w : World)
      → Members s
      → Members (s ++ (append_at_cap_result sys cfg reading true w).0)
  unfolding append_at_cap_result json_escape escape_bytes escape_byte
  next_reading-Members s cfg reading w m =
      let (cmd, w1) =
        profile_cmd_or_default sys cfg reading.capability reading.field reading.fallback w in
      let (res, w2) = send_at sys cfg cmd true w1 in
      subst Members (simp append_assoc)
        (next_member s reading.name _ m (reading_text-Json reading.name cmd reading.parser res))

  first_reading-Members :
      (cfg : AppConfig) (reading : RadioItem) (w : World)
      → Members (codes "{" ++ (append_at_cap_result sys cfg reading false w).0)
  unfolding append_at_cap_result json_escape escape_bytes escape_byte
  first_reading-Members cfg reading w =
      let (cmd, w1) =
        profile_cmd_or_default sys cfg reading.capability reading.field reading.fallback w in
      let (res, w2) = send_at sys cfg cmd true w1 in
      subst Members (simp append_assoc)
        (first_member reading.name _ (reading_text-Json reading.name cmd reading.parser res))

  radio_text-Members :
      (s : Bytes) (cfg : AppConfig) (readings : List RadioItem) (w : World)
      → Members s
      → Members (s ++ (radio_text sys cfg readings true w).0)
  unfolding radio_text
  radio_text-Members s cfg [] w m = subst Members (sym (append-nil s)) m
  radio_text-Members s cfg (reading ∷ rest) w m =
      let (item, w1) = append_at_cap_result sys cfg reading true w in
      subst Members (append_assoc s item (radio_text sys cfg rest true w1).0)
        (radio_text-Members (s ++ item) cfg rest w1 (next_reading-Members s cfg reading w m))

  radio_text-Json :
      (cfg : AppConfig) (readings : List RadioItem) (w : World)
      → Json (codes "{" ++ (radio_text sys cfg readings false w).0 ++ codes "}")
  unfolding radio_text
  radio_text-Json cfg [] w = no_members
  radio_text-Json cfg (reading ∷ rest) w =
      let (item, w1) = append_at_cap_result sys cfg reading false w in
      object _
        (radio_text-Members (codes "{" ++ item) cfg rest w1 (first_reading-Members cfg reading w))

  pub api_modem_radio-Written :
      (cfg : AppConfig) (w : World) → Written (api_modem_radio sys cfg w).0
  unfolding api_modem_radio
  api_modem_radio-Written cfg w = success-Written _ (radio_text-Json cfg radio_items w)
