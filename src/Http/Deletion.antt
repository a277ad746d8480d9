-- ===== src/Http/Deletion.antt =====
-- What `api_profiles_delete` of src/http.c leaves of the tables.
use cellmgr.Base.{
  false, [], ◌∷◌, some, inl, inr, ◌≡◌, ◌⊎◌, sym, ap, ◌∙◌, Bytes, codes, Bool-cases, Option-cases,
}
use cellmgr.Libc.Text.{str_eq, str_eq_iff}
use cellmgr.Json.Lookup.{json_get_string}
use cellmgr.Config.Fields.{AppConfig}
use cellmgr.System.{System, text}
use cellmgr.Db.Tables.{db_profile_exists, db_delete_profile}
use cellmgr.Db.Lawful.{Tables, IsLawful, is_present, drop_profile, drop_cache}
use cellmgr.Db.Statements.{delete_profile_sql}
use cellmgr.Profile.Import.{given}
use cellmgr.Http.Profiles.{api_profiles_delete}

-- The tables are as before, or the profile that the body names, which is not the active one, is
-- gone with its cached answers, and nothing else.
abbrev pub Deletes : AppConfig → Bytes → Tables → Tables → Type 0
Deletes cfg body before after =
    (after ≡ before)
    ⊎ ((id : Bytes) × (given (json_get_string body (codes "id")) ≡ some id)
        × (str_eq id cfg.active_profile ≡ false)
        × (after ≡ drop_cache id (drop_profile id before)))

module _ {World : Type 0} (sys : System World) (tables : World → Tables)
    (lawful : IsLawful sys tables) where
  db_profile_exists_lem :
      (id : Bytes) (w : World)
      → ((db_profile_exists sys id w).0 ≡ is_present ((tables w).profile id))
        × (tables (db_profile_exists sys id w).1 ≡ tables w)
  unfolding db_profile_exists
  db_profile_exists_lem id w = lawful.profile_exists id w

  db_delete_profile_lem :
      (id : Bytes) (w : World)
      → tables (db_delete_profile sys id w).1 ≡ drop_cache id (drop_profile id (tables w))
  unfolding db_delete_profile
  db_delete_profile_lem id w =
      let (done, gone) = lawful.delete_profile id w in
      let (done_too, uncached) =
        lawful.delete_cache id (sys.sql delete_profile_sql (text id ∷ []) w).1 in
      rw (done, uncached, gone)

  deletes :
      (cfg : AppConfig) (body : Bytes) (w : World)
      → Deletes cfg body (tables w) (tables (api_profiles_delete sys cfg body w).1)
  unfolding api_profiles_delete
  deletes cfg body w = elim (Option-cases (given (json_get_string body (codes "id")))) [
    | inl e ↦ inl (rw (e, api_profiles_delete))
    | inr (id, e) ↦ elim (Bool-cases (str_eq id cfg.active_profile)) [
      | inl active ↦ inl (rw (e, api_profiles_delete, active))
      | inr other ↦ elim (Bool-cases (db_profile_exists sys id w).0) [
        | inr missing ↦
            inl (rw (e, api_profiles_delete, other, missing) (db_profile_exists_lem id w).1)
        | inl found ↦ inr (
          id,
          e,
          other,
          rw (e, api_profiles_delete, other, found)
              (db_delete_profile_lem id (db_profile_exists sys id w).1
                ∙ ap (λ t. drop_cache id (drop_profile id t)) (db_profile_exists_lem id w).1),
        )
      ]
    ]
  ]

  str_eq-false_comm : (a b : Bytes) → str_eq a b ≡ false → str_eq b a ≡ false
  str_eq-false_comm a b h = elim (Bool-cases (str_eq b a)) [
    | inr e ↦ e
    | inl e ↦ cc (h, (str_eq_iff a b).1 (sym ((str_eq_iff b a).0 e)))
  ]

  active_kept :
      (cfg : AppConfig) (body : Bytes) (before after : Tables)
      → Deletes cfg body before after
      → after.profile cfg.active_profile ≡ before.profile cfg.active_profile
  active_kept cfg body before after (inl same) = ap (λ t. t.profile cfg.active_profile) same
  active_kept cfg body before after (inr (id, e, other, gone)) =
      ap (λ t. t.profile cfg.active_profile) gone
      ∙ (rw (str_eq-false_comm id cfg.active_profile other))

  -- When SQLite keeps its promises, a request to delete removes at most one profile, the one that its
  -- body names, together with its cached answers; the active profile stays, and its JSON with it.
  pub api_profiles_delete-Deletes :
      (cfg : AppConfig) (body : Bytes) (w : World)
      → let after = tables (api_profiles_delete sys cfg body w).1 in
        Deletes cfg body (tables w) after
        × (after.profile cfg.active_profile ≡ (tables w).profile cfg.active_profile)
  api_profiles_delete-Deletes cfg body w =
      let result = deletes cfg body w in (result, active_kept cfg body (tables w) _ result)
