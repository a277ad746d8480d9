-- ===== src/Parsers/Dbus/Syntax.antt =====
-- What `parse_dbus_properties_json` of src/parsers.c writes is JSON, whatever the bus answers.
use cellmgr.Base.{
  true, false, List, [], ◌∷◌, ◌++◌, inl, inr, subst, sym, Bytes, codes, append_assoc, append-nil,
  Option-cases,
}
use cellmgr.Libc.Occurrences.{occurrences}
use cellmgr.Json.Escape.{escape_byte, escape_bytes, json_escape, json_prop_string}
use cellmgr.Json.Grammar.{Json, Members, object, no_members, first_string, next_string}
use cellmgr.Parsers.Syntax.{listed_raw-Json}
use cellmgr.Parsers.Dbus.{entry_mark, property_at, property_items, parse_dbus_properties_json}

-- Further properties, behind a first one.
property_items-Members :
    (s : Bytes) (places : List Bytes) → Members s → Members (s ++ property_items true places)
unfolding property_items
property_items-Members s [] m = subst Members (sym (append-nil s)) m
property_items-Members s (p ∷ places) m = elim (Option-cases (property_at p)) [
  | inl e ↦ rw (property_items, e) (property_items-Members s places m)
  | inr ((key, value), e) ↦
      rw (property_items, e)
        (subst Members
          (append_assoc s (json_prop_string key value true) (property_items true places))
          (property_items-Members (s ++ json_prop_string key value true) places
            (next_string s key value m)))
]

property_items-Json :
    (places : List Bytes) → Json (codes "{" ++ property_items false places ++ codes "}")
unfolding property_items
property_items-Json [] = no_members
property_items-Json (p ∷ places) = elim (Option-cases (property_at p)) [
  | inl e ↦ rw (property_items, e) (property_items-Json places)
  | inr ((key, value), e) ↦
      rw (property_items, e) (object _ (property_items-Members _ places (first_string key value)))
]

pub parse_dbus_properties_json-Json : (raw : Bytes) → Json (parse_dbus_properties_json raw)
unfolding parse_dbus_properties_json json_escape escape_bytes escape_byte
parse_dbus_properties_json-Json raw =
    let items = property_items false (occurrences 11 entry_mark raw) in
    subst Json (simp append_assoc) (
      listed_raw-Json (codes "properties") (codes "{" ++ items ++ codes "}") raw
        (property_items-Json (occurrences 11 entry_mark raw)))
