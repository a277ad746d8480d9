-- ===== src/Http/Answers/Stored.antt =====
-- The handlers of src/http.c for profiles, settings and the reboots give the answers of Answered, on
-- every branch.
use cellmgr.Base.{Option, some, inl, inr, Bytes, codes, Bool-cases, Option-cases}
use cellmgr.Base.Int.{pos}
use cellmgr.Json.Lookup.{json_get_string, json_get_int}
use cellmgr.Config.Fields.{AppConfig}
use cellmgr.System.{System}
use cellmgr.Db.Tables.{db_profile_exists}
use cellmgr.Profile.Import.{given, profile_import_json}
use cellmgr.Http.State.{AppState}
use cellmgr.Http.Answers.Answered.{Answered, json, answered_list, answered_if}
use cellmgr.Http.Profiles.{
  query_id, api_profiles_activate, api_profiles_current, api_profiles_delete, api_profiles_export,
  api_profiles_get, api_profiles_list, api_profiles_save, api_profiles_validate,
}
use cellmgr.Http.Settings.{
  bad_time, reboot_text, save_account, api_settings, api_system_reboot, api_system_scheduled_reboot,
}

pub api_profiles_validate-Answered : (body : Bytes) → Answered (api_profiles_validate body)
unfolding api_profiles_validate
api_profiles_validate-Answered body = search json

pub api_settings-Answered : (cfg : AppConfig) → Answered (api_settings cfg)
unfolding api_settings
api_settings-Answered cfg = search json

module _ {World : Type 0} (sys : System World) where
  pub api_profiles_current-Answered :
      (cfg : AppConfig) (w : World) → Answered (api_profiles_current sys cfg w).0
  unfolding api_profiles_current
  api_profiles_current-Answered cfg w = search answered_list

  pub api_profiles_get-Answered :
      (query : Bytes) (w : World) → Answered (api_profiles_get sys query w).0
  unfolding api_profiles_get
  api_profiles_get-Answered query w = elim (Option-cases (query_id query)) [
    | inl e ↦ rw (e, api_profiles_get) (search json)
    | inr (id, e) ↦ rw (e, api_profiles_get) (search answered_list)
  ]

  pub api_profiles_list-Answered :
      (cfg : AppConfig) (w : World) → Answered (api_profiles_list sys cfg w).0
  unfolding api_profiles_list
  api_profiles_list-Answered cfg w = search answered_list

  pub api_profiles_save-Answered :
      (body : Bytes) (w : World) → Answered (api_profiles_save sys body w).0
  unfolding api_profiles_save
  api_profiles_save-Answered body w = elim (Option-cases (profile_import_json sys body w).0) [
    | inl e ↦ rw (e, api_profiles_save) (search json)
    | inr (id, e) ↦ rw (e, api_profiles_save) (search json)
  ]

  pub api_profiles_activate-Answered :
      (state : AppState) (body : Bytes) (w : World)
      → Answered (api_profiles_activate sys state body w).0.0
  unfolding api_profiles_activate
  api_profiles_activate-Answered state body w =
      elim (Option-cases (given (json_get_string body (codes "id")))) [
        | inl e ↦ rw (e, api_profiles_activate) (search json)
        | inr (id, e) ↦ elim (Bool-cases (db_profile_exists sys id w).0) [
          | inl k ↦ rw (e, api_profiles_activate, k) (search json)
          | inr k ↦ rw (e, api_profiles_activate, k) (search json)
        ]
      ]

  pub api_profiles_delete-Answered :
      (cfg : AppConfig) (body : Bytes) (w : World) → Answered (api_profiles_delete sys cfg body w).0
  unfolding api_profiles_delete
  api_profiles_delete-Answered cfg body w =
      elim (Option-cases (given (json_get_string body (codes "id")))) [
        | inl e ↦ rw (e, api_profiles_delete) (search json)
        | inr (id, e) ↦ rw (e, api_profiles_delete) (search (answered_if, json))
      ]

  pub api_profiles_export-Answered :
      (cfg : AppConfig) (body : Bytes) (w : World) → Answered (api_profiles_export sys cfg body w).0
  unfolding api_profiles_export
  api_profiles_export-Answered cfg body w = search answered_list

  pub api_system_reboot-Answered :
      (body : Bytes) (w : World) → Answered (api_system_reboot sys body w).0
  unfolding api_system_reboot reboot_text
  api_system_reboot-Answered body w = search (answered_if, json)

  pub api_system_scheduled_reboot-Answered :
      (state : AppState) (body : Bytes) (w : World)
      → Answered (api_system_scheduled_reboot sys state body w).0.0
  unfolding api_system_scheduled_reboot
  api_system_scheduled_reboot-Answered state body w =
      elim (Bool-cases (
        bad_time (json_get_int body (codes "hour") (pos 3))
          (json_get_int body (codes "minute") (pos 30)))) [
            | inl e ↦ rw e (search json)
            | inr e ↦ rw e (search json)
          ]

  pub save_account-Answered :
      (state : AppState) (user pass : Option Bytes) (w : World)
      → Answered (save_account sys state user pass w).0.0
  unfolding save_account
  save_account-Answered state (some user) (some pass) w = search json
  save_account-Answered state _ _ w = search json
