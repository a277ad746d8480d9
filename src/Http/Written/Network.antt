-- ===== src/Http/Written/Network.antt =====
-- The handlers of src/http.c for cells and for locking answer with JSON.
use cellmgr.Base.{some, inl, inr, Bytes, codes, Option-cases}
use cellmgr.Command.Capture.{CommandResult}
use cellmgr.Config.Fields.{AppConfig}
use cellmgr.System.{System}
use cellmgr.Json.Grammar.{object, first_string, next_string, next_int}
use cellmgr.Parsers.Dispatch.Syntax.{parse_at_response_json-Json}
use cellmgr.Http.State.{out_text}
use cellmgr.Http.Network.{
  sent_text, cells_text, band_values, send_template, api_network_cells, api_network_lock_band,
  api_network_lock_cell, api_network_lock_frequency, api_network_unlock,
}
use cellmgr.Http.Written.{Written, failure-Written, command_answer-Written, choice-Written}
use cellmgr.Http.Written.Texts.{parsed-Members}

sent_text-Written : (cmd : Bytes) (res : CommandResult) → Written (sent_text cmd res)
unfolding sent_text
sent_text-Written cmd res = command_answer-Written res _ (
    object _ (
      next_string _ (codes "raw") (out_text res)
        (next_int _ (codes "exit_code") res.exit_code (first_string (codes "command") cmd))))

cells_text-Written : (cmd : Bytes) (res : CommandResult) → Written (cells_text cmd res)
unfolding cells_text
cells_text-Written cmd res = command_answer-Written res _ (
    object _ (
      parsed-Members _ _
        (next_int _ (codes "exit_code") res.exit_code (first_string (codes "command") cmd))
        (parse_at_response_json-Json (some (codes "gtccinfo")) (out_text res))))

module _ {World : Type 0} (sys : System World) where
  pub api_network_cells-Written :
      (cfg : AppConfig) (w : World) → Written (api_network_cells sys cfg w).0
  unfolding api_network_cells
  api_network_cells-Written cfg w = search cells_text-Written

  send_template-Written :
      (cfg : AppConfig) (cmd : Bytes) (w : World) → Written (send_template sys cfg cmd w).0
  unfolding send_template
  send_template-Written cfg cmd w = search sent_text-Written

  pub api_network_lock_band-Written :
      (cfg : AppConfig) (body : Bytes) (w : World)
      → Written (api_network_lock_band sys cfg body w).0
  unfolding api_network_lock_band
  api_network_lock_band-Written cfg body w = elim (Option-cases (band_values body)) [
    | inl e ↦ rw (api_network_lock_band, e) (search (choice-Written, failure-Written))
    | inr (values, e) ↦
        rw (api_network_lock_band, e)
          (search (choice-Written, failure-Written, send_template-Written))
  ]

  pub api_network_lock_cell-Written :
      (cfg : AppConfig) (body : Bytes) (w : World)
      → Written (api_network_lock_cell sys cfg body w).0
  unfolding api_network_lock_cell
  api_network_lock_cell-Written cfg body w =
      search (choice-Written, failure-Written, send_template-Written)

  pub api_network_lock_frequency-Written :
      (cfg : AppConfig) (body : Bytes) (w : World)
      → Written (api_network_lock_frequency sys cfg body w).0
  unfolding api_network_lock_frequency
  api_network_lock_frequency-Written cfg body w =
      search (choice-Written, failure-Written, send_template-Written)

  pub api_network_unlock-Written :
      (cfg : AppConfig) (body : Bytes) (w : World) → Written (api_network_unlock sys cfg body w).0
  unfolding api_network_unlock
  api_network_unlock-Written cfg body w =
      search (choice-Written, failure-Written, send_template-Written)
