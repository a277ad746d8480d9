-- ===== src/Profile/Import.antt =====
-- The import of profiles into the database, and the active profile, in src/profile.c.
use cellmgr.Base.{
  Bool, false, [], ◌∷◌, Option, none, some, ltb, if◌then◌else◌, Bytes, codes, length,
}
use cellmgr.Json.Lookup.{json_get_string}
use cellmgr.Config.Fields.{AppConfig}
use cellmgr.System.{System, Prog}
use cellmgr.Db.Tables.{db_upsert_profile, db_get_profile_json}

-- A pointer that is not null, to a text that is not empty.
abbrev pub given : Option Bytes → Option Bytes
given none = none
given (some []) = none
given (some (c ∷ s)) = some (c ∷ s)

abbrev or_else : Option Bytes → Bytes → Bytes
or_else none d = d
or_else (some s) d = s

module _ {World : Type 0} (sys : System World) where
  -- The flag is whether 0 is returned; `fallback_id` is not NULL.
  unfoldable pub profile_import_file : Bytes → Bytes → Prog World Bool
  unfolding json_get_string db_upsert_profile
  profile_import_file path fallback_id w = elim (sys.read_text_file path 1_048_576 w) [
    | none ↦ (false, w)
    | some json ↦
        let id : Bytes = or_else (json_get_string json (codes "id")) fallback_id in
        db_upsert_profile sys id (or_else (json_get_string json (codes "name")) id) json w
  ]

  -- What is written behind `out_id` and `out_name` where 0 is returned.
  abbrev imported : Bytes → Option Bytes → Option Bytes → Prog World (Option (Bytes × Bytes))
  imported json (some id) (some name) w =
      let (ok, w1) = db_upsert_profile sys id name json w in
      (if ok then some (id, name) else none, w1)
  imported json _ _ w = (none, w)

  unfoldable pub profile_import_json : Bytes → Prog World (Option (Bytes × Bytes))
  unfolding json_get_string db_upsert_profile
  profile_import_json json w =
      if ltb (length json) 2
      then (none, w)
      else imported json (given (json_get_string json (codes "id")))
          (given (json_get_string json (codes "name"))) w

  unfoldable pub profile_get_active_json : AppConfig → Prog World (Option Bytes)
  unfolding db_get_profile_json
  profile_get_active_json cfg = db_get_profile_json sys cfg.active_profile
