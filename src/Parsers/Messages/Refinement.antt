-- ===== src/Parsers/Messages/Refinement.antt =====
-- The machine of `parse_dbus_messages_json` (src/parsers.c) and the objects of an answer.
use cellmgr.Base.{
  suc, true, false, ◌||◌, List, [], ◌∷◌, ◌++◌, Option, none, some, ◌≡◌, refl, sym, ap, inl, inr,
  if◌then◌else◌, Bool-cases, Bytes, codes, length,
}
use cellmgr.Libc.Text.{has_prefix, str_eq}
use cellmgr.Libc.Token.{tokens}
use cellmgr.Common.Trim.{trim_in_place}
use cellmgr.Json.Escape.{json_escape}
use cellmgr.Parsers.Quoted.{is_line_end, extract_quoted_after, comma_separated}
use cellmgr.Parsers.Messages.{
  Scan, flush_item, open_item, with_key, add_property, property_line, scan_line, scan_lines,
  scan_start, parse_dbus_messages_json,
}
use cellmgr.Parsers.Messages.Objects.{
  Object, Reading, finish, reading, read_property, opened, read_other, read_line, read_lines,
  objects, object_head, numbered,
}
use cellmgr.Parsers.Messages.Simulation.{
  items_start, Shows, flush-Shows, comma_separated-nil, open_item-Shows, with_key-Shows,
  add_property-Shows,
}

keyless_line :
    (s : Scan) (item line : Bytes)
    → s.current_key ≡ none
    → property_line s item line
      ≡ (if has_prefix (codes "string ") line then with_key s (extract_quoted_after line) else s)
unfolding property_line
keyless_line s item line e = rw e

keyed_line :
    (s : Scan) (item key line : Bytes)
    → s.current_key ≡ some key
    → property_line s item line ≡ (
        if has_prefix (codes "variant") line
        then add_property s item key line
        else if str_eq line (codes ")") || str_eq line (codes "]")
        then with_key s none
        else s)
unfolding property_line
keyed_line s item key line e = rw e

property_line-Shows :
    (done : List Object) (o : Object) (key : Option Bytes) (line : Bytes) (s : Scan)
    → Shows (reading done (some o) key) s
    → Shows
        (read_property done o key line)
        (property_line s (object_head (suc (length done)) o.path ++ comma_separated o.props) line)
property_line-Shows done o none line s h = elim (Bool-cases (has_prefix (codes "string ") line)) [
  | inl e ↦
      rw (keyless_line s _ line h.key_is, e)
        (with_key-Shows done o none (extract_quoted_after line) s h)
  | inr e ↦ rw (keyless_line s _ line h.key_is, e) h
]
property_line-Shows done o (some key) line s h =
    elim (Bool-cases (has_prefix (codes "variant") line)) [
      | inl e ↦ rw (keyed_line s _ key line h.key_is, e) (add_property-Shows done o key line s h)
      | inr e ↦ elim (Bool-cases (str_eq line (codes ")") || str_eq line (codes "]"))) [
        | inl f ↦
            rw (keyed_line s _ key line h.key_is, e, f) (with_key-Shows done o (some key) none s h)
        | inr f ↦ rw (keyed_line s _ key line h.key_is, e, f) h
      ]
    ]

scan_line_object :
    (s : Scan) (line : Bytes)
    → has_prefix (codes "object path ") line ≡ true
    → scan_line s line ≡ (elim (extract_quoted_after line) [
      | none ↦ flush_item s
      | some path ↦ open_item (flush_item s) path
    ])
unfolding scan_line
scan_line_object s line e = rw e

scan_line_other :
    (s : Scan) (line : Bytes)
    → has_prefix (codes "object path ") line ≡ false
    → scan_line s line ≡ (elim s.item [ none ↦ s | some item ↦ property_line s item line ])
unfolding scan_line
scan_line_other s line e = rw e

object_line-Shows :
    (done : List Object) (path : Option Bytes) (s : Scan)
    → Shows (reading done none none) s
    → Shows
        (reading done (opened path) none)
        (elim path [ none ↦ s | some path ↦ open_item s path ])
object_line-Shows done none s h = h
object_line-Shows done (some path) s h = open_item-Shows done path s h

other_line-Shows :
    (done : List Object) (current : Option Object) (key : Option Bytes) (line : Bytes) (s : Scan)
    → Shows (reading done current key) s
    → Shows
        (read_other (reading done current key) current line)
        (elim s.item [ none ↦ s | some item ↦ property_line s item line ])
other_line-Shows done none key line s h =
    let (index_is, item_is, no_key) = h.current_shown in rw item_is h
other_line-Shows done (some o) key line s h =
    rw h.current_shown.item_is (property_line-Shows done o key line s h)

scan_line-Shows :
    (r : Reading) (line : Bytes) (s : Scan)
    → Shows r s
    → Shows (read_line r line) (scan_line s line)
scan_line-Shows r line s h = elim (Bool-cases (has_prefix (codes "object path ") line)) [
  | inl e ↦
      rw (scan_line_object s line e, e)
        (object_line-Shows (finish r.done r.current) (extract_quoted_after line) (flush_item s)
          (flush-Shows r.done r.current r.key s h))
  | inr e ↦ rw (scan_line_other s line e, e) (other_line-Shows r.done r.current r.key line s h)
]

scan_lines-Shows :
    (r : Reading) (lines : List Bytes) (s : Scan)
    → Shows r s
    → Shows (read_lines r lines) (scan_lines s lines)
unfolding scan_lines read_lines
scan_lines-Shows r [] s h = h
scan_lines-Shows r (line ∷ lines) s h =
    scan_lines-Shows (read_line r (trim_in_place line)) lines (scan_line s (trim_in_place line))
      (scan_line-Shows r (trim_in_place line) s h)

start-Shows : Shows (reading [] none none) scan_start
start-Shows = record {
  done_shown = record {
    out_is = ap (λ t. items_start ++ t) (sym comma_separated-nil);
    first_is = refl;
  };
  current_shown = (refl, refl, refl);
  key_is = refl;
}

-- The items are those of the objects that a reading of the lines finds, in order and numbered from 1,
-- each once, with its properties in order and commas between them; the answer follows.
pub parse_dbus_messages_json-objects :
    (raw : Bytes)
    → parse_dbus_messages_json raw
      ≡ codes "{\"items\":["
        ++ comma_separated (numbered 0 (objects raw))
        ++ codes "],\"raw\":"
        ++ json_escape raw
        ++ codes "}"
unfolding parse_dbus_messages_json
parse_dbus_messages_json-objects raw =
    let r = read_lines (reading [] none none) (tokens is_line_end raw) in
    let s = scan_lines scan_start (tokens is_line_end raw) in
    let shown =
      scan_lines-Shows (reading [] none none) (tokens is_line_end raw) scan_start start-Shows in
    let finished = flush-Shows r.done r.current r.key s shown in
    ap (λ t. t ++ codes "],\"raw\":" ++ json_escape raw ++ codes "}") finished.done_shown.out_is
