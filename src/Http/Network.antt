-- ===== src/Http/Network.antt =====
-- The handlers of src/http.c for bands and cells.
use cellmgr.Base.{
  Bool, true, false, not, ◌||◌, List, [], ◌∷◌, ◌++◌, Option, none, some, if◌then◌else◌, Bytes,
  codes,
}
use cellmgr.Base.Int.{ℤ, pos, negsuc, ltb_ℤ}
use cellmgr.Libc.Text.{is_nil, strstr, truncate}
use cellmgr.Libc.Number.{atoi, show_int}
use cellmgr.Json.Escape.{json_prop_string, json_prop_int}
use cellmgr.Json.Lookup.{json_get_string, json_get_int}
use cellmgr.Config.Fields.{AppConfig}
use cellmgr.Command.Capture.{CommandResult}
use cellmgr.At.Send.{at_send}
use cellmgr.Parsers.Dispatch.{parse_at_response_json}
use cellmgr.System.{System, Prog}
use cellmgr.Db.Tables.{db_get_capability_cache, db_put_capability_cache}
use cellmgr.Profile.Capability.{profile_get_capability_command, profile_get_capability_ttl}
use cellmgr.Profile.Import.{profile_get_active_json}
use cellmgr.Http.State.{response_json_body, success, failure, command_answer, out_text, send_at}
use cellmgr.Http.Template.{replace_token, profile_cmd_or_default, network_template_command}
use cellmgr.Http.Modem.{confirmed}

-- The answer of a command that was made from a template.
unfoldable pub sent_text : Bytes → CommandResult → Bytes
unfolding json_prop_string json_prop_int response_json_body
sent_text cmd res = command_answer res (
    codes "{"
    ++ json_prop_string (codes "command") cmd false
    ++ json_prop_int (codes "exit_code") res.exit_code true
    ++ json_prop_string (codes "raw") (out_text res) true
    ++ codes "}")

unfoldable pub cells_text : Bytes → CommandResult → Bytes
unfolding json_prop_string json_prop_int response_json_body parse_at_response_json
cells_text cmd res = command_answer res (
    codes "{"
    ++ json_prop_string (codes "command") cmd false
    ++ json_prop_int (codes "exit_code") res.exit_code true
    ++ codes ",\"parsed\":"
    ++ parse_at_response_json (some (codes "gtccinfo")) (out_text res)
    ++ codes "}")

-- Tokens and their values, replaced one after the other in arrays of 512 bytes.
unfoldable pub fill : Bytes → List (Bytes × Bytes) → Bytes
unfolding replace_token
fill tmpl [] = tmpl
fill tmpl ((token, value) ∷ rest) = fill (replace_token 512 tmpl token value) rest

infixl 5 ◌>>=◌
abbrev ◌>>=◌ : {A B : Type 0} → Option A → (A → Option B) → Option B
none >>= f = none
some a >>= f = f a

-- What `api_network_lock_band` reads, when all four are there.
unfoldable pub band_values : Bytes → Option (List (Bytes × Bytes))
unfolding json_get_string
band_values body = do
  mode ← json_get_string body (codes "mode")
  rat ← json_get_string body (codes "rat")
  pref ← json_get_string body (codes "preferred_rat")
  bands ← json_get_string body (codes "bands")
  some (
      (codes "{mode}", mode)
      ∷ (codes "{rat}", rat)
      ∷ (codes "{preferred_rat}", pref)
      ∷ (codes "{bands}", bands)
      ∷ [])

-- `snprintf(dst, 32, "%d", json_get_int(body, key, fallback))`
abbrev decimal : Bytes → Bytes → ℤ → Bytes
decimal body key fallback = truncate 32 (show_int (json_get_int body key fallback))

-- The values of `api_network_lock_cell` and `api_network_lock_frequency`.
unfoldable pub cell_values : Bytes → List (Bytes × Bytes)
unfolding json_get_int show_int
cell_values body =
    (codes "{mode}", decimal body (codes "mode") (pos 1))
    ∷ (codes "{rat}", decimal body (codes "rat") (pos 0))
    ∷ (codes "{type}", decimal body (codes "type") (pos 1))
    ∷ (codes "{earfcn}", decimal body (codes "earfcn") (negsuc 0))
    ∷ (codes "{pci}", decimal body (codes "pci") (negsuc 0))
    ∷ []

unfoldable pub frequency_values : Bytes → List (Bytes × Bytes)
unfolding json_get_int show_int
frequency_values body =
    (codes "{mode}", decimal body (codes "mode") (pos 1))
    ∷ (codes "{rat}", decimal body (codes "rat") (pos 0))
    ∷ (codes "{earfcn}", decimal body (codes "earfcn") (negsuc 0))
    ∷ []

-- `atoi(dst) < 0` of such a value
unfoldable pub is_missing : Bytes → Bytes → Bool
unfolding json_get_int show_int atoi
is_missing body key = ltb_ℤ (atoi (decimal body key (negsuc 0))) (pos 0)

abbrev or_command : Bytes → Bytes → Bytes
or_command cmd fallback = if is_nil cmd then fallback else cmd

module _ {World : Type 0} (sys : System World) where
  -- The command of the active profile is run and its parsed answer put into the cache.
  unfoldable pub discover_bands : AppConfig → Prog World Bytes
  unfolding profile_get_active_json profile_get_capability_command profile_get_capability_ttl
      at_send parse_at_response_json db_put_capability_cache response_json_body
  discover_bands cfg w =
      let (profile, w1) = profile_get_active_json sys cfg w in
      elim profile [
        | none ↦ (failure (codes "active profile not found"), w1)
        | some json ↦
            elim (profile_get_capability_command json (codes "network.band")
              (codes "discovery.command")) [
                | none ↦ (failure (codes "network.band discovery command not configured"), w1)
                | some cmd ↦
                    let ttl = profile_get_capability_ttl json (codes "network.band") (pos 86_400) in
                    let (res, w2) = send_at sys cfg cmd true w1 in
                    let parsed = parse_at_response_json (some (codes "gtact")) (out_text res) in
                    let (ok, w3) =
                      db_put_capability_cache sys cfg.active_profile (codes "network.band")
                        cfg.ofono_modem_path (out_text res) parsed ttl w2 in
                    (command_answer res parsed, w3)
              ]
      ]

  unfoldable pub api_network_bands : AppConfig → Bytes → Prog World Bytes
  unfolding strstr db_get_capability_cache response_json_body discover_bands
  api_network_bands cfg query w = elim (strstr query (codes "refresh=1")) [
    | some p ↦ discover_bands cfg w
    | none ↦
        let (cached, w1) =
          db_get_capability_cache sys cfg.active_profile (codes "network.band") cfg.ofono_modem_path
            w in
        elim cached [ some json ↦ (success json, w1) | none ↦ discover_bands cfg w1 ]
  ]

  unfoldable pub api_network_cells : AppConfig → Prog World Bytes
  unfolding profile_cmd_or_default at_send cells_text
  api_network_cells cfg w =
      let (cmd, w1) =
        profile_cmd_or_default sys cfg (codes "network.cell_info") (codes "read")
          (codes "AT+GTCCINFO?") w in
      let (res, w2) = send_at sys cfg cmd true w1 in (cells_text cmd res, w2)

  -- A command that the handlers below send whatever `allow_dangerous_at` is.
  unfoldable pub send_template : AppConfig → Bytes → Prog World Bytes
  unfolding at_send sent_text
  send_template cfg cmd w = let (res, w1) = send_at sys cfg cmd true w in (sent_text cmd res, w1)

  -- The template is looked up even when a value is missing.
  unfoldable pub api_network_lock_band : AppConfig → Bytes → Prog World Bytes
  unfolding confirmed response_json_body band_values network_template_command fill send_template
  api_network_lock_band cfg body w =
      if not (confirmed body)
      then (failure (codes "confirm is required"), w)
      else let (tmpl, w1) =
          network_template_command sys cfg (codes "network.band") (codes "set_template") w in
        elim (band_values body) [
          | none ↦ (failure (codes "mode, rat, preferred_rat and bands are required"), w1)
          | some values ↦
              if is_nil tmpl
              then (failure (codes "mode, rat, preferred_rat and bands are required"), w1)
              else send_template cfg (fill tmpl values) w1
        ]

  unfoldable pub api_network_lock_cell : AppConfig → Bytes → Prog World Bytes
  unfolding confirmed response_json_body is_missing cell_values network_template_command fill
      send_template
  api_network_lock_cell cfg body w =
      if not (confirmed body)
      then (failure (codes "confirm is required"), w)
      else if is_missing body (codes "earfcn") || is_missing body (codes "pci")
      then (failure (codes "earfcn and pci are required"), w)
      else let (tmpl, w1) =
          network_template_command sys cfg (codes "network.cell_lock") (codes "set_template") w in
        if is_nil tmpl
        then (failure (codes "cell lock template not configured"), w1)
        else send_template cfg (truncate 512 (fill tmpl (cell_values body))) w1

  unfoldable pub api_network_lock_frequency : AppConfig → Bytes → Prog World Bytes
  unfolding confirmed response_json_body is_missing frequency_values network_template_command fill
      send_template
  api_network_lock_frequency cfg body w =
      if not (confirmed body)
      then (failure (codes "confirm is required"), w)
      else if is_missing body (codes "earfcn")
      then (failure (codes "earfcn is required"), w)
      else let (tmpl, w1) =
          network_template_command sys cfg (codes "network.cell_lock") (codes "frequency_template")
            w in
        send_template cfg
          (fill (or_command tmpl (codes "AT+GTCELLLOCK={mode},{rat},1,{earfcn}"))
            (frequency_values body))
          w1

  unfoldable pub api_network_unlock : AppConfig → Bytes → Prog World Bytes
  unfolding confirmed response_json_body network_template_command send_template
  api_network_unlock cfg body w =
      if not (confirmed body)
      then (failure (codes "confirm is required"), w)
      else let (cmd, w1) =
          network_template_command sys cfg (codes "network.cell_lock") (codes "unlock") w in
        send_template cfg (or_command cmd (codes "AT+GTCELLLOCK=0")) w1
