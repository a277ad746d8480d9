-- ===== src/Http/Answers/Network.antt =====
-- The handlers of src/http.c for bands and cells give the answers of Answered, on every branch.
use cellmgr.Base.{inl, inr, Bytes, codes, Option-cases}
use cellmgr.Libc.Text.{strstr}
use cellmgr.Config.Fields.{AppConfig}
use cellmgr.System.{System}
use cellmgr.Db.Tables.{db_get_capability_cache}
use cellmgr.Profile.Import.{profile_get_active_json}
use cellmgr.Profile.Capability.{profile_get_capability_command}
use cellmgr.Http.Answers.Answered.{Answered, json, answered_if}
use cellmgr.Http.Network.{
  sent_text, cells_text, band_values, discover_bands, send_template, api_network_bands,
  api_network_cells, api_network_lock_band, api_network_lock_cell, api_network_lock_frequency,
  api_network_unlock,
}

module _ {World : Type 0} (sys : System World) where
  discover_bands-Answered : (cfg : AppConfig) (w : World) → Answered (discover_bands sys cfg w).0
  unfolding discover_bands
  discover_bands-Answered cfg w = elim (Option-cases (profile_get_active_json sys cfg w).0) [
    | inl e ↦ rw (e, discover_bands) (search json)
    | inr (text, e) ↦
        elim (Option-cases (
          profile_get_capability_command text (codes "network.band") (codes "discovery.command"))) [
            | inl k ↦ rw (e, discover_bands, k) (search json)
            | inr (cmd, k) ↦ rw (e, discover_bands, k) (search json)
          ]
  ]

  pub api_network_bands-Answered :
      (cfg : AppConfig) (query : Bytes) (w : World) → Answered (api_network_bands sys cfg query w).0
  unfolding api_network_bands
  api_network_bands-Answered cfg query w = elim (Option-cases (strstr query (codes "refresh=1"))) [
    | inr (p, e) ↦ rw (e, api_network_bands) (discover_bands-Answered cfg w)
    | inl e ↦
        elim (Option-cases
          (db_get_capability_cache sys cfg.active_profile (codes "network.band")
            cfg.ofono_modem_path w).0) [
              | inl k ↦ rw (e, api_network_bands, k) (discover_bands-Answered cfg _)
              | inr (text, k) ↦ rw (e, api_network_bands, k) (search json)
            ]
  ]

  pub api_network_cells-Answered :
      (cfg : AppConfig) (w : World) → Answered (api_network_cells sys cfg w).0
  unfolding api_network_cells cells_text
  api_network_cells-Answered cfg w = search json

  send_template-Answered :
      (cfg : AppConfig) (cmd : Bytes) (w : World) → Answered (send_template sys cfg cmd w).0
  unfolding send_template sent_text
  send_template-Answered cfg cmd w = search json

  pub api_network_lock_band-Answered :
      (cfg : AppConfig) (body : Bytes) (w : World)
      → Answered (api_network_lock_band sys cfg body w).0
  unfolding api_network_lock_band
  api_network_lock_band-Answered cfg body w = elim (Option-cases (band_values body)) [
    | inl e ↦ rw (api_network_lock_band, e) (search (answered_if, json))
    | inr (values, e) ↦ rw (api_network_lock_band, e) (search (answered_if, json))
  ]

  pub api_network_lock_cell-Answered :
      (cfg : AppConfig) (body : Bytes) (w : World)
      → Answered (api_network_lock_cell sys cfg body w).0
  unfolding api_network_lock_cell
  api_network_lock_cell-Answered cfg body w = search (answered_if, json)

  pub api_network_lock_frequency-Answered :
      (cfg : AppConfig) (body : Bytes) (w : World)
      → Answered (api_network_lock_frequency sys cfg body w).0
  unfolding api_network_lock_frequency
  api_network_lock_frequency-Answered cfg body w = search (answered_if, json)

  pub api_network_unlock-Answered :
      (cfg : AppConfig) (body : Bytes) (w : World) → Answered (api_network_unlock sys cfg body w).0
  unfolding api_network_unlock
  api_network_unlock-Answered cfg body w = search (answered_if, json)
