-- ===== src/Config/Keys.antt =====
-- Which key of src/config.c sets which field, and what one line of the file does.
use cellmgr.Base.{
  ◌≡◌, ◌≢◌, refl, ap, some, inl, inr, Option-cases, List, [], ◌∷◌, ◌⊎◌, Bytes, Bool-cases,
}
use cellmgr.Config.Fields.{AppConfig, Key, key_name, all_keys, set_field}
use cellmgr.Config.Load.{find_key, set_key}
use cellmgr.Libc.Text.{str_eq, str_eq_iff}

-- No two keys have the same name: the ladder reaches the branch of each.
find_key-key_name : (k : Key) → find_key all_keys (key_name k) ≡ some k
unfolding find_key
find_key-key_name Key.listen_host = refl
find_key-key_name _ = refl

find_key_sound :
    (ks : List Key) (key : Bytes) {k : Key} → find_key ks key ≡ some k → key ≡ key_name k
unfolding find_key
find_key_sound [] key h = cc
find_key_sound (k ∷ ks) key h = elim (Bool-cases (str_eq key (key_name k))) [
  | inl e ↦ cc ((str_eq_iff key (key_name k)).0 e, rw e at h)
  | inr e ↦ find_key_sound ks key (rw e at h)
]

-- The effect of `set_key`: one field is set, or the key names none and nothing changes.
abbrev Sets : AppConfig → Bytes → Bytes → AppConfig → Type 0
Sets cfg key value cfg' =
    ((k : Key) × (key ≡ key_name k) × (cfg' ≡ set_field k value cfg))
    ⊎ (((k : Key) → key ≢ key_name k) × (cfg' ≡ cfg))

-- Every key sets the field that it names, and any other text leaves the configuration alone.
set_key-Sets : (cfg : AppConfig) (key value : Bytes) → Sets cfg key value (set_key cfg key value)
unfolding set_key
set_key-Sets cfg key value = elim (Option-cases (find_key all_keys key)) [
  | inl e ↦ inr (λ k named. cc (ap (find_key all_keys) named, find_key-key_name k), rw (set_key, e))
  | inr (k, e) ↦ inl (k, find_key_sound all_keys key e, rw (set_key, e))
]
