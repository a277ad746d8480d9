-- ===== src/Http/Template.antt =====
-- Commands that src/http.c makes from a profile: `profile_cmd_or_default` and `replace_token`.
use cellmgr.Base.{
  ℕ, zero, suc, ◌+◌, ◌-◌, true, false, [], ◌∷◌, ◌++◌, none, some, ltb, Bytes, length, take, drop,
}
use cellmgr.Libc.Text.{strstr}
use cellmgr.Config.Fields.{AppConfig}
use cellmgr.System.{System, Prog}
use cellmgr.Profile.Capability.{profile_get_capability_command}
use cellmgr.Profile.Import.{profile_get_active_json}
use cellmgr.Http.State.{or_text}

-- `strncat(dst, s, n < room ? n : room)`, where `room` is `dst_sz - strlen(dst) - 1`.
abbrev pub append_room : ℕ → Bytes → Bytes → Bytes
append_room dst_sz dst s = dst ++ take (dst_sz - length dst - 1) s

-- The loop at `p`; `fuel` rounds at most.
unfoldable pub replace_from : ℕ → ℕ → Bytes → Bytes → Bytes → Bytes → Bytes
unfolding strstr
replace_from zero dst_sz token value dst p = dst
replace_from (suc fuel) dst_sz token value dst [] = dst
replace_from (suc fuel) dst_sz token value dst (c ∷ p) = elim (ltb (length dst + 1) dst_sz) [
  | false ↦ dst
  | true ↦ elim (strstr (c ∷ p) token) [
    | none ↦ append_room dst_sz dst (c ∷ p)
    | some m ↦
        replace_from fuel dst_sz token value
          (append_room dst_sz (append_room dst_sz dst (take (length (c ∷ p) - length m) (c ∷ p)))
            value)
          (drop (length token) m)
  ]
]

-- A round moves behind a token, which is not empty, so the length is enough.
unfoldable pub replace_token : ℕ → Bytes → Bytes → Bytes → Bytes
unfolding replace_from
replace_token dst_sz src token value = replace_from (suc (length src)) dst_sz token value [] src

module _ {World : Type 0} (sys : System World) where
  unfoldable pub profile_cmd_or_default : AppConfig → Bytes → Bytes → Bytes → Prog World Bytes
  unfolding profile_get_active_json profile_get_capability_command
  profile_cmd_or_default cfg capability field fallback w =
      let (profile, w1) = profile_get_active_json sys cfg w in
      (
        elim profile [
          | none ↦ fallback
          | some json ↦ or_text (profile_get_capability_command json capability field) fallback
        ],
        w1,
      )

  unfoldable pub network_template_command : AppConfig → Bytes → Bytes → Prog World Bytes
  unfolding profile_cmd_or_default
  network_template_command cfg capability field = profile_cmd_or_default cfg capability field []
