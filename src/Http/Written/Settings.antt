-- ===== src/Http/Written/Settings.antt =====
-- The handlers of src/http.c that change the profiles and the settings answer with JSON.
use cellmgr.Base.{
  Bool, true, false, ◌++◌, Option, none, some, inl, inr, if◌then◌else◌, Bytes, codes, subst, sym,
  append-nil, Option-cases, Bool-cases,
}
use cellmgr.Base.Int.{pos}
use cellmgr.Json.Lookup.{json_get_string, json_get_int}
use cellmgr.Json.Escape.{escape_byte, escape_bytes, json_escape}
use cellmgr.Json.Grammar.{Members, object, truth, falsehood, first_int, first_member, next_string}
use cellmgr.Command.Capture.{CommandResult}
use cellmgr.Config.Fields.{AppConfig}
use cellmgr.System.{System}
use cellmgr.Db.Tables.{db_profile_exists}
use cellmgr.Profile.Import.{given, profile_import_json}
use cellmgr.Http.State.{AppState}
use cellmgr.Http.Profiles.{
  text_if, both_given, api_profiles_activate, api_profiles_delete, api_profiles_save,
  api_profiles_validate,
}
use cellmgr.Http.Settings.{
  bad_time, reboot_text, save_account, api_settings, api_system_reboot, api_system_scheduled_reboot,
}
use cellmgr.Http.Written.{
  Written, success-Written, failure-Written, json_body-Written, command_answer-Written,
  choice-Written,
}
use cellmgr.Http.Written.Texts.{
  streams-Members, saved_text-Json, active_text-Json, deleted_text-Json, scheduled_text-Json,
  settings_text-Json,
}

text_if-Members :
    (s key : Bytes) (value : Option Bytes) → Members s → Members (s ++ text_if key value)
text_if-Members s key none m = subst Members (sym (append-nil s)) m
text_if-Members s key (some value) m = next_string s key value m

validity-Members :
    (valid : Bool)
    → Members (codes "{\"valid\":" ++ (if valid then codes "true" else codes "false"))
unfolding json_escape escape_bytes escape_byte
validity-Members true = first_member (codes "valid") (codes "true") truth
validity-Members false = first_member (codes "valid") (codes "false") falsehood

pub api_profiles_validate-Written : (body : Bytes) → Written (api_profiles_validate body)
unfolding api_profiles_validate
api_profiles_validate-Written body =
    let id = json_get_string body (codes "id") in
    let name = json_get_string body (codes "name") in
    success-Written _ (
      object _ (
        text_if-Members _ (codes "name") name (
          text_if-Members _ (codes "id") id
            (validity-Members (both_given (given id) (given name))))))

pub api_settings-Written : (cfg : AppConfig) → Written (api_settings cfg)
unfolding api_settings
api_settings-Written cfg = success-Written _ (settings_text-Json cfg)

reboot_text-Written : (res : CommandResult) → Written (reboot_text res)
unfolding reboot_text
reboot_text-Written res =
    command_answer-Written res _
      (object _ (streams-Members _ res (first_int (codes "exit_code") res.exit_code)))

module _ {World : Type 0} (sys : System World) where
  pub api_profiles_save-Written :
      (body : Bytes) (w : World) → Written (api_profiles_save sys body w).0
  unfolding api_profiles_save
  api_profiles_save-Written body w = elim (Option-cases (profile_import_json sys body w).0) [
    | inl e ↦ rw (e, api_profiles_save) (search failure-Written)
    | inr (id, e) ↦ rw (e, api_profiles_save) (search (success-Written, saved_text-Json))
  ]

  pub api_profiles_activate-Written :
      (state : AppState) (body : Bytes) (w : World)
      → Written (api_profiles_activate sys state body w).0.0
  unfolding api_profiles_activate
  api_profiles_activate-Written state body w =
      elim (Option-cases (given (json_get_string body (codes "id")))) [
        | inl e ↦ rw (e, api_profiles_activate) (search failure-Written)
        | inr (id, e) ↦ elim (Bool-cases (db_profile_exists sys id w).0) [
          | inl k ↦ rw (e, api_profiles_activate, k) (search (success-Written, active_text-Json))
          | inr k ↦ rw (e, api_profiles_activate, k) (search failure-Written)
        ]
      ]

  pub api_profiles_delete-Written :
      (cfg : AppConfig) (body : Bytes) (w : World) → Written (api_profiles_delete sys cfg body w).0
  unfolding api_profiles_delete
  api_profiles_delete-Written cfg body w =
      elim (Option-cases (given (json_get_string body (codes "id")))) [
        | inl e ↦ rw (e, api_profiles_delete) (search failure-Written)
        | inr (id, e) ↦
            rw (e, api_profiles_delete)
              (search (choice-Written, failure-Written, json_body-Written, deleted_text-Json))
      ]

  pub api_system_reboot-Written :
      (body : Bytes) (w : World) → Written (api_system_reboot sys body w).0
  unfolding api_system_reboot
  api_system_reboot-Written body w = search (choice-Written, failure-Written, reboot_text-Written)

  pub api_system_scheduled_reboot-Written :
      (state : AppState) (body : Bytes) (w : World)
      → Written (api_system_scheduled_reboot sys state body w).0.0
  unfolding api_system_scheduled_reboot
  api_system_scheduled_reboot-Written state body w =
      elim (Bool-cases (
        bad_time (json_get_int body (codes "hour") (pos 3))
          (json_get_int body (codes "minute") (pos 30)))) [
            | inl e ↦ rw e (search failure-Written)
            | inr e ↦ rw e (search (success-Written, scheduled_text-Json))
          ]

  pub save_account-Written :
      (state : AppState) (user pass : Option Bytes) (w : World)
      → Written (save_account sys state user pass w).0.0
  unfolding save_account json_escape escape_bytes escape_byte
  save_account-Written state (some user) (some pass) w =
      success-Written _ (object _ (first_member (codes "saved") (codes "true") truth))
  save_account-Written state _ _ w = search failure-Written
