-- ===== src/Profile/Capability.antt =====
-- The commands and times to live of capabilities in src/profile.c.
use cellmgr.Base.{Bool, true, false, Option, none, some, Bytes, codes}
use cellmgr.Base.Int.{ℤ}
use cellmgr.Libc.Text.{str_eq}
use cellmgr.Json.Lookup.{json_get_string, json_get_int}
use cellmgr.Profile.Block.{find_capability_block}

-- `if (!value && strcmp(field, "discovery.command") == 0)`
abbrev discovered : Bytes → Bool → Option Bytes
discovered block false = none
discovered block true = elim (find_capability_block block (codes "discovery")) [
  | none ↦ none
  | some discovery ↦ json_get_string discovery (codes "command")
]

unfoldable pub profile_get_capability_command : Bytes → Bytes → Bytes → Option Bytes
unfolding find_capability_block json_get_string str_eq
profile_get_capability_command profile_json capability field =
    elim (find_capability_block profile_json capability) [
      | none ↦ none
      | some block ↦ elim (json_get_string block field) [
        | none ↦ discovered block (str_eq field (codes "discovery.command"))
        | some value ↦ some value
      ]
    ]

unfoldable pub profile_get_capability_ttl : Bytes → Bytes → ℤ → ℤ
unfolding find_capability_block json_get_int
profile_get_capability_ttl profile_json capability fallback =
    elim (find_capability_block profile_json capability) [
      | none ↦ fallback
      | some block ↦ elim (find_capability_block block (codes "discovery")) [
        | none ↦ fallback
        | some discovery ↦ json_get_int discovery (codes "cache_ttl_sec") fallback
      ]
    ]
