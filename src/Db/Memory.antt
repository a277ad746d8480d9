-- ===== src/Db/Memory.antt =====
-- A system whose database is in memory, and which meets the assumptions of Lawful.
use cellmgr.Base.{◌++◌, true, List, [], ◌∷◌, Option, none, some, ◌≡◌, refl, if◌then◌else◌, Bytes}
use cellmgr.Base.Int.{ℤ, pos, ◌+ℤ◌}
use cellmgr.Libc.Text.{str_eq}
use cellmgr.System.{Value, text, int, Row, Reply, stepped, System}
use cellmgr.Db.Statements.{
  get_setting_sql, upsert_profile_sql, get_profile_sql, profile_exists_sql, delete_profile_sql,
}
use cellmgr.Db.Tables.{first_text, has_row}
use cellmgr.Db.Lawful.{
  is_present, Tables, IsLawful, put_setting, put_profile, drop_profile, drop_cache, put_cache,
  fresh,
}

-- The tables, the clock and the programs that were run.
pub record Memory : Type 0 where
  pub tables : Tables
  pub clock : ℤ
  pub ran : List (List Bytes)

abbrev row : Bytes → Row
row s = record { text_of = λ column. some s; int_of = λ column. pos 1 }

abbrev found : Option Bytes → Memory → Reply × Memory
found none m = (stepped [] true, m)
found (some s) m = (stepped (row s ∷ []) true, m)

abbrev done : Tables → Memory → Reply × Memory
done t m = (stepped [] true, record m { tables = t })

-- The statements of src/db.c by what they bind.
unfoldable pub run_sql : Bytes → List Value → Memory → Reply × Memory
unfolding str_eq
run_sql sql (text key ∷ []) m =
    if str_eq sql get_setting_sql
    then found (m.tables.setting key) m
    else if str_eq sql get_profile_sql
    then found (m.tables.profile key) m
    else if str_eq sql profile_exists_sql
    then found (m.tables.profile key) m
    else if str_eq sql delete_profile_sql
    then done (drop_profile key m.tables) m
    else done (drop_cache key m.tables) m
run_sql sql (text key ∷ text value ∷ int now ∷ []) m = done (put_setting key value m.tables) m
run_sql sql (text id ∷ text name ∷ text json ∷ int now ∷ []) m =
    if str_eq sql upsert_profile_sql
    then done (put_profile id json m.tables) m
    else found (fresh now (m.tables.cached id name json)) m
run_sql sql (text id ∷ text c ∷ text modem ∷ text raw ∷ text json ∷ int now ∷ int ttl ∷ []) m =
    done (put_cache id c modem json (now +ℤ ttl) m.tables) m
run_sql sql values m = (stepped [] true, m)

-- Every program prints `answer` and ends with 0.
abbrev pub memory_system : Bytes → System Memory
memory_system answer = record {
  run_capture = λ argv timeout limit m. (
    (pos 0, record { out = some answer; err = some []; exit_code = pos 0 }),
    record m { ran = m.ran ++ argv ∷ [] },
  );
  sql = run_sql;
  now_unix = λ m. m.clock;
  read_text_file = λ path limit m. none;
  write_text_file = λ path contents m. (true, m);
  connect_tcp = λ host port m. (none, m);
  close = λ sent m. m;
}

found_lem :
    (o : Option Bytes) (m : Memory)
    → (first_text (found o m).0 ≡ o)
      × (has_row (found o m).0 ≡ is_present o)
      × ((found o m).1.tables ≡ m.tables)
found_lem none m = (refl, refl, refl)
found_lem (some s) m = (refl, refl, refl)

pub memory_system-IsLawful : (answer : Bytes) → IsLawful (memory_system answer) (λ m. m.tables)
unfolding run_sql
memory_system-IsLawful answer = record {
  set_setting = λ key value now m. (refl, refl);
  get_setting = λ key m. finds (m.tables.setting key) m;
  get_profile = λ id m. finds (m.tables.profile id) m;
  profile_exists =
      λ id m. let (text_found, has, same) = found_lem (m.tables.profile id) m in (has, same);
  delete_profile = λ id m. (refl, refl);
  delete_cache = λ id m. (refl, refl);
  insert_history = λ command response exit_code now m. (refl, refl);
  put_cache_entry = λ id capability modem raw json now ttl m. (refl, refl);
  get_cache =
      λ id capability modem now m. finds (fresh now (m.tables.cached id capability modem)) m;
  run_capture_keeps = λ argv timeout limit m. refl;
}
  where
    finds :
        (o : Option Bytes) (m : Memory)
        → (first_text (found o m).0 ≡ o) × ((found o m).1.tables ≡ m.tables)
    finds o m = let (text_found, has, same) = found_lem o m in (text_found, same)

pub memory_system-upsert_profile :
    (answer id name json : Bytes) (now : ℤ) (m : Memory)
    → ((memory_system answer).sql upsert_profile_sql
        (text id ∷ text name ∷ text json ∷ int now ∷ [])
        m).1.tables.setting
      ≡ m.tables.setting
unfolding run_sql
memory_system-upsert_profile answer id name json now m = refl
