-- ===== src/Parsers/Messages.antt =====
-- `parse_dbus_messages_json` of src/parsers.c: a machine that reads the lines of an answer of D-Bus
-- and writes one JSON item for an object path, with the properties that follow it.
pub mod Objects
pub mod Simulation
pub mod Refinement
use cellmgr.Base.{
  ℕ, suc, Bool, true, false, ◌||◌, List, [], ◌∷◌, ◌++◌, Option, none, some, if◌then◌else◌, Bytes,
  codes,
}
use cellmgr.Libc.Text.{has_prefix, str_eq}
use cellmgr.Libc.Number.{show_nat}
use cellmgr.Libc.Token.{tokens}
use cellmgr.Common.Trim.{trim_in_place}
use cellmgr.Json.Escape.{json_escape}
use cellmgr.Parsers.Quoted.{is_line_end, extract_quoted_after}
use cellmgr.Parsers.Dbus.{append_dbus_variant_json}

-- The variables of the loop. `item` is none while `have_item` is 0.
pub record Scan : Type 0 where
  pub out : Bytes
  pub item : Option Bytes
  pub first_item : Bool
  pub first_prop : Bool
  pub index : ℕ
  pub current_key : Option Bytes

-- The finished item goes to `out`.
unfoldable pub flush_item : Scan → Scan
flush_item s = elim s.item [
  | none ↦ s
  | some item ↦ record {
    out = s.out ++ (if s.first_item then [] else codes ",") ++ item ++ codes "}}";
    item = none;
    first_item = false;
    first_prop = s.first_prop;
    index = s.index;
    current_key = none;
  }
]

unfoldable pub open_item : Scan → Bytes → Scan
unfolding json_escape show_nat
open_item s path = record {
  out = s.out;
  item = some (
      codes "{\"index\":"
      ++ show_nat (suc s.index)
      ++ codes ",\"path\":"
      ++ json_escape path
      ++ codes ",\"properties\":{");
  first_item = s.first_item;
  first_prop = true;
  index = suc s.index;
  current_key = s.current_key;
}

abbrev pub with_key : Scan → Option Bytes → Scan
with_key s key = record {
  out = s.out;
  item = s.item;
  first_item = s.first_item;
  first_prop = s.first_prop;
  index = s.index;
  current_key = key;
}

-- The property `key` with the value of `line` in the item that holds `item`.
unfoldable pub add_property : Scan → Bytes → Bytes → Bytes → Scan
unfolding json_escape append_dbus_variant_json
add_property s item key line = record {
  out = s.out;
  item = some (
      item
      ++ (if s.first_prop then [] else codes ",")
      ++ json_escape key
      ++ codes ":"
      ++ append_dbus_variant_json line);
  first_item = s.first_item;
  first_prop = false;
  index = s.index;
  current_key = none;
}

-- What the rest of the loop's body does with a line of the item that holds `item`.
unfoldable pub property_line : Scan → Bytes → Bytes → Scan
unfolding has_prefix str_eq extract_quoted_after add_property
property_line s item line = elim s.current_key [
  | none ↦ if has_prefix (codes "string ") line then with_key s (extract_quoted_after line) else s
  | some key ↦
      if has_prefix (codes "variant") line
      then add_property s item key line
      else if str_eq line (codes ")") || str_eq line (codes "]")
      then with_key s none
      else s
]

-- The body of the loop, on the trimmed line.
unfoldable pub scan_line : Scan → Bytes → Scan
unfolding has_prefix flush_item extract_quoted_after open_item property_line
scan_line s line =
    if has_prefix (codes "object path ") line
    then elim (extract_quoted_after line) [
      | none ↦ flush_item s
      | some path ↦ open_item (flush_item s) path
    ]
    else elim s.item [ none ↦ s | some item ↦ property_line s item line ]

unfoldable pub scan_lines : Scan → List Bytes → Scan
unfolding scan_line trim_in_place
scan_lines s [] = s
scan_lines s (line ∷ lines) = scan_lines (scan_line s (trim_in_place line)) lines

abbrev pub scan_start : Scan
scan_start = record {
  out = codes "{\"items\":[";
  item = none;
  first_item = true;
  first_prop = true;
  index = 0;
  current_key = none;
}

unfoldable pub parse_dbus_messages_json : Bytes → Bytes
unfolding tokens scan_lines flush_item json_escape
parse_dbus_messages_json raw =
    (flush_item (scan_lines scan_start (tokens is_line_end raw))).out
    ++ codes "],\"raw\":"
    ++ json_escape raw
    ++ codes "}"
