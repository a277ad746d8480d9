-- ===== src/Http/Profiles.antt =====
-- The handlers of src/http.c for profiles.
use cellmgr.Base.{
  Bool, true, false, not, [], ◌++◌, Option, none, some, ◌==◌, if◌then◌else◌, Bytes, codes, drop,
}
use cellmgr.Libc.Text.{str_eq, strstr, take_while, truncate}
use cellmgr.Json.Escape.{json_prop_string}
use cellmgr.Json.Lookup.{json_get_string}
use cellmgr.Config.Fields.{AppConfig}
use cellmgr.System.{System, Prog}
use cellmgr.Db.Tables.{db_get_profile_json, db_profile_exists, db_delete_profile, db_set_setting}
use cellmgr.Db.Lists.{db_list_profiles_json}
use cellmgr.Profile.Import.{given, profile_import_json, profile_get_active_json}
use cellmgr.Http.State.{AppState, or_text, response_json_body, success, failure, list_answer}

-- The id behind `id=`, in an array of 128 bytes.
unfoldable pub query_id : Bytes → Option Bytes
unfolding strstr take_while
query_id query = elim (strstr query (codes "id=")) [
  | none ↦ none
  | some p ↦ some (truncate 128 (take_while (λ c. not (c == b'&')) (drop 3 p)))
]

unfoldable pub saved_text : Bytes → Bytes → Bytes
unfolding json_prop_string
saved_text id name =
    codes "{"
    ++ json_prop_string (codes "id") id false
    ++ json_prop_string (codes "name") name true
    ++ codes ",\"saved\":true}"

unfoldable pub active_text : Bytes → Bytes
unfolding json_prop_string
active_text id = codes "{" ++ json_prop_string (codes "active_profile") id false ++ codes "}"

unfoldable pub deleted_text : Bytes → Bytes
unfolding json_prop_string
deleted_text id = codes "{" ++ json_prop_string (codes "id") id false ++ codes ",\"deleted\":true}"

abbrev pub text_if : Bytes → Option Bytes → Bytes
text_if key none = []
text_if key (some value) = json_prop_string key value true

abbrev pub both_given : Option Bytes → Option Bytes → Bool
both_given (some id) (some name) = true
both_given _ _ = false

unfoldable pub api_profiles_validate : Bytes → Bytes
unfolding json_get_string json_prop_string response_json_body
api_profiles_validate body =
    let id = json_get_string body (codes "id") in
    let name = json_get_string body (codes "name") in
    success (
      codes "{\"valid\":"
      ++ (if both_given (given id) (given name) then codes "true" else codes "false")
      ++ text_if (codes "id") id
      ++ text_if (codes "name") name
      ++ codes "}")

-- `snprintf(state->cfg.active_profile, sizeof(state->cfg.active_profile), "%s", id)`
abbrev pub activate : Bytes → AppState → AppState
activate id state = record state { cfg = record state.cfg { active_profile = truncate 128 id } }

module _ {World : Type 0} (sys : System World) where
  unfoldable pub api_profiles_current : AppConfig → Prog World Bytes
  unfolding profile_get_active_json response_json_body
  api_profiles_current cfg w =
      let (json, w1) = profile_get_active_json sys cfg w in
      (list_answer json (codes "active profile not found"), w1)

  unfoldable pub api_profiles_get : Bytes → Prog World Bytes
  unfolding query_id db_get_profile_json response_json_body
  api_profiles_get query w = elim (query_id query) [
    | none ↦ (failure (codes "missing profile id"), w)
    | some id ↦
        let (json, w1) = db_get_profile_json sys id w in
        (list_answer json (codes "profile not found"), w1)
  ]

  unfoldable pub api_profiles_list : AppConfig → Prog World Bytes
  unfolding db_list_profiles_json response_json_body
  api_profiles_list cfg w =
      let (json, w1) = db_list_profiles_json sys cfg.active_profile w in
      (list_answer json (codes "list profiles failed"), w1)

  unfoldable pub api_profiles_save : Bytes → Prog World Bytes
  unfolding profile_import_json response_json_body saved_text
  api_profiles_save body w =
      let (saved, w1) = profile_import_json sys body w in
      (
        elim saved [
          | none ↦ failure (codes "invalid profile json; id and name are required")
          | some (id, name) ↦ success (saved_text id name)
        ],
        w1,
      )

  unfoldable pub api_profiles_activate : AppState → Bytes → Prog World (Bytes × AppState)
  unfolding json_get_string db_profile_exists db_set_setting response_json_body active_text
  api_profiles_activate state body w = elim (given (json_get_string body (codes "id"))) [
    | none ↦ ((failure (codes "missing profile id"), state), w)
    | some id ↦
        let (exists, w1) = db_profile_exists sys id w in
        if not exists
        then ((failure (codes "profile not found"), state), w1)
        else let (ok, w2) = db_set_setting sys (codes "active_profile") id w1 in
          ((success (active_text id), activate id state), w2)
  ]

  unfoldable pub api_profiles_delete : AppConfig → Bytes → Prog World Bytes
  unfolding json_get_string str_eq db_profile_exists db_delete_profile response_json_body
      deleted_text
  api_profiles_delete cfg body w = elim (given (json_get_string body (codes "id"))) [
    | none ↦ (failure (codes "missing profile id"), w)
    | some id ↦
        if str_eq id cfg.active_profile
        then (failure (codes "cannot delete active profile"), w)
        else let (exists, w1) = db_profile_exists sys id w in
          if not exists
          then (failure (codes "profile not found"), w1)
          else let (ok, w2) = db_delete_profile sys id w1 in
            (response_json_body ok (deleted_text id) (some (codes "delete failed")), w2)
  ]

  unfoldable pub api_profiles_export : AppConfig → Bytes → Prog World Bytes
  unfolding json_get_string db_get_profile_json response_json_body
  api_profiles_export cfg body w =
      let (json, w1) =
        db_get_profile_json sys
          (or_text (given (json_get_string body (codes "id"))) cfg.active_profile) w in
      (list_answer json (codes "profile not found"), w1)
