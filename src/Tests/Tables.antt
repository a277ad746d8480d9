-- ===== src/Tests/Tables.antt =====
-- Concrete runs of src/profile.c, of templates and of the tables, over a database in memory.
use cellmgr.Base.{zero, [], none, some, ◌≡◌, refl, Bytes, codes, take}
use cellmgr.Base.Int.{pos}
use cellmgr.Libc.Text.{has_prefix, strstr, strchr}
use cellmgr.System.{System}
use cellmgr.Config.Fields.{config_defaults}
use cellmgr.Db.Memory.{Memory, memory_system, memory_system-IsLawful}
use cellmgr.Profile.Block.{find_capability_block}
use cellmgr.Profile.Grammar.{
  close, plain, Inner, nothing, byte, string, find_capability_block-block,
}
use cellmgr.Http.Template.{replace_token}
use cellmgr.Http.Replace.{substitute, replace_token-substitute}
use cellmgr.Http.Profiles.{api_profiles_delete}
use cellmgr.Http.Deletion.{Deletes, api_profiles_delete-Deletes}
use cellmgr.Http.Network.{discover_bands}

replace_token-substitute_example :
    replace_token 512 (codes "AT+L={mode},{mode}") (codes "{mode}") (codes "1")
    ≡ take 511 (substitute (codes "{mode}") (codes "1") zero (codes "AT+L={mode},{mode}"))
replace_token-substitute_example =
    replace_token-substitute b'{' (codes "mode}") (codes "1") 511 (codes "AT+L={mode},{mode}")

replaced :
    substitute (codes "{mode}") (codes "1") zero (codes "AT+L={mode},{mode}") ≡ codes "AT+L=1,1"
unfolding substitute has_prefix
replaced = refl

abbrev braces : Bytes
braces = codes "{\"a\":{\"}\":1}} tail"

braces-Inner : Inner (codes "\"}\":1")
braces-Inner =
    string (codes "}\"") (codes ":1") (plain b'}' (codes "\"") refl close)
      (byte b':' (codes "1") refl (byte b'1' [] refl nothing))

find_capability_block-block_example :
    find_capability_block braces (codes "a") ≡ some (codes "{\"}\":1}")
unfolding strstr strchr
find_capability_block-block_example =
    find_capability_block-block braces (codes "a") (codes "\"a\":{\"}\":1}} tail") (codes "\"}\":1")
      (codes "} tail") refl refl braces-Inner

abbrev lab_profile : Bytes
lab_profile =
    codes
      "{\"id\":\"lab\",\"network.band\":{\"discovery\":{\"command\":\"AT+GTACT?\",\"cache_ttl_sec\":60}}}"

abbrev sys : System Memory
sys = memory_system (codes "+GTACT: 20,6,3,101")

abbrev memory : Memory
memory = record {
  tables = record {
    setting = λ key. none;
    profile = λ id. some lab_profile;
    cached = λ id capability modem. none;
  };
  clock = pos 1000;
  ran = [];
}

api_profiles_delete-Deletes_example :
    Deletes config_defaults
      (codes "{\"id\":\"old\"}")
      memory.tables
      (api_profiles_delete sys config_defaults (codes "{\"id\":\"old\"}") memory).1.tables
    × ((api_profiles_delete sys config_defaults (codes "{\"id\":\"old\"}") memory).1.tables.profile
          config_defaults.active_profile
        ≡ some lab_profile)
api_profiles_delete-Deletes_example =
    api_profiles_delete-Deletes sys (λ m. m.tables)
      (memory_system-IsLawful (codes "+GTACT: 20,6,3,101")) config_defaults
      (codes "{\"id\":\"old\"}") memory

abbrev later : Memory
later = (discover_bands sys config_defaults memory).1
