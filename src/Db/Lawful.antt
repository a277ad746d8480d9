-- ===== src/Db/Lawful.antt =====
-- What SQLite is assumed to do with the statements of src/db.c, on tables that hold what the program
-- reads back. No statement fails.
use cellmgr.Base.{
  ℕ, Bool, true, false, ◌&&◌, List, [], ◌∷◌, Option, none, some, ◌≡◌, if◌then◌else◌, Bytes,
}
use cellmgr.Base.Int.{ℤ, leb_ℤ, ◌+ℤ◌}
use cellmgr.Libc.Text.{str_eq}
use cellmgr.System.{text, int, Reply, System}
use cellmgr.Db.Statements.{
  set_setting_sql, get_setting_sql, get_profile_sql, profile_exists_sql, delete_profile_sql,
  delete_cache_sql, insert_history_sql, put_cache_sql, get_cache_sql,
}
use cellmgr.Db.Tables.{is_done, first_text, has_row}

-- The value of a setting, the JSON of a profile, and the parsed JSON of a cached answer with the last
-- second at which it counts.
pub record Tables : Type 0 where
  pub setting : Bytes → Option Bytes
  pub profile : Bytes → Option Bytes
  pub cached : Bytes → Bytes → Bytes → Option (Bytes × ℤ)

abbrev pub is_present : {A : Type 0} → Option A → Bool
is_present none = false
is_present (some a) = true

abbrev pub put_setting : Bytes → Bytes → Tables → Tables
put_setting key value t = record t {
  setting = λ k. if str_eq k key then some value else t.setting k;
}

abbrev pub put_profile : Bytes → Bytes → Tables → Tables
put_profile id json t = record t { profile = λ k. if str_eq k id then some json else t.profile k }

abbrev pub drop_profile : Bytes → Tables → Tables
drop_profile id t = record t { profile = λ k. if str_eq k id then none else t.profile k }

abbrev pub drop_cache : Bytes → Tables → Tables
drop_cache id t = record t { cached = λ k c m. if str_eq k id then none else t.cached k c m }

abbrev pub put_cache : Bytes → Bytes → Bytes → Bytes → ℤ → Tables → Tables
put_cache id capability modem json until t = record t {
  cached = λ k c m.
      if str_eq k id && str_eq c capability && str_eq m modem
      then some (json, until)
      else t.cached k c m;
}

-- An answer that still counts.
abbrev pub fresh : ℤ → Option (Bytes × ℤ) → Option Bytes
fresh now none = none
fresh now (some (json, until)) = if leb_ℤ now until then some json else none

-- A statement that is done and turns the tables into `t`; one that finds `found` and leaves them.
abbrev pub Writes : {World : Type 0} → (World → Tables) → Reply × World → Tables → Type 0
Writes tables (reply, w) t = (is_done reply ≡ true) × (tables w ≡ t)

abbrev pub Finds :
    {World : Type 0} → (World → Tables) → Reply × World → Option Bytes → Tables → Type 0
Finds tables (reply, w) found t = (first_text reply ≡ found) × (tables w ≡ t)

pub record IsLawful {World : Type 0} (sys : System World) (tables : World → Tables) : Type 0 where
  pub set_setting :
      (key value : Bytes) (now : ℤ) (w : World)
      → Writes tables
          (sys.sql set_setting_sql (text key ∷ text value ∷ int now ∷ []) w)
          (put_setting key value (tables w))
  pub get_setting :
      (key : Bytes) (w : World)
      → Finds tables (sys.sql get_setting_sql (text key ∷ []) w) ((tables w).setting key) (tables w)
  pub get_profile :
      (id : Bytes) (w : World)
      → Finds tables (sys.sql get_profile_sql (text id ∷ []) w) ((tables w).profile id) (tables w)
  pub profile_exists :
      (id : Bytes) (w : World)
      → let (reply, w1) = sys.sql profile_exists_sql (text id ∷ []) w in
        (has_row reply ≡ is_present ((tables w).profile id)) × (tables w1 ≡ tables w)
  pub delete_profile :
      (id : Bytes) (w : World)
      → Writes tables (sys.sql delete_profile_sql (text id ∷ []) w) (drop_profile id (tables w))
  pub delete_cache :
      (id : Bytes) (w : World)
      → Writes tables (sys.sql delete_cache_sql (text id ∷ []) w) (drop_cache id (tables w))
  pub insert_history :
      (command response : Bytes) (exit_code now : ℤ) (w : World)
      → Writes tables
          (sys.sql insert_history_sql
            (text command ∷ text response ∷ int exit_code ∷ int now ∷ [])
            w)
          (tables w)
  pub put_cache_entry :
      (id capability modem raw json : Bytes) (now ttl : ℤ) (w : World)
      → Writes tables
          (sys.sql put_cache_sql
            (text id ∷ text capability ∷ text modem ∷ text raw ∷ text json ∷ int now ∷ int ttl ∷ [])
            w)
          (put_cache id capability modem json (now +ℤ ttl) (tables w))
  pub get_cache :
      (id capability modem : Bytes) (now : ℤ) (w : World)
      → Finds tables
          (sys.sql get_cache_sql (text id ∷ text capability ∷ text modem ∷ int now ∷ []) w)
          (fresh now ((tables w).cached id capability modem))
          (tables w)
  pub run_capture_keeps :
      (argv : List Bytes) (timeout : ℤ) (limit : ℕ) (w : World)
      → tables (sys.run_capture argv timeout limit w).1 ≡ tables w
