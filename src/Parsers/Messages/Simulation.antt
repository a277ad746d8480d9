-- ===== src/Parsers/Messages/Simulation.antt =====
-- How the variables of `parse_dbus_messages_json` (src/parsers.c) stand for the objects read so far,
-- and what closing, opening and extending an object does to them.
use cellmgr.Base.{
  suc, ◌+◌, Bool, false, List, [], ◌∷◌, ◌++◌, Option, none, some, ◌≡◌, refl, sym, ap, ◌∙◌, arith,
  Bytes, codes, length, append_assoc, append-nil, length-append,
}
use cellmgr.Json.Escape.{json_escape}
use cellmgr.Parsers.Quoted.{comma_separated}
use cellmgr.Parsers.Dbus.{append_dbus_variant_json}
use cellmgr.Parsers.Messages.{Scan, flush_item, open_item, with_key, add_property}
use cellmgr.Parsers.Messages.Objects.{
  Object, Reading, finish, prop_text, with_prop, reading, new_object, object_head, object_text,
  numbered, is_empty, comma_unless, comma_separated-concat, numbered-concat, is_empty-numbered,
}

abbrev pub items_start : Bytes
items_start = codes "{\"items\":["

-- The variables of the loop when `done` are finished.
pub record ShowsDone (done : List Object) (s : Scan) : Type 0 where
  pub out_is : s.out ≡ items_start ++ comma_separated (numbered 0 done)
  pub first_is : s.first_item ≡ is_empty done

-- The text of the open item, with its properties so far.
pub record ShowsOpen (done : List Object) (o : Object) (s : Scan) : Type 0 where
  pub index_is : s.index ≡ suc (length done)
  pub item_is : s.item ≡ some (object_head (suc (length done)) o.path ++ comma_separated o.props)
  pub first_prop_is : s.first_prop ≡ is_empty o.props

abbrev pub ShowsCurrent : List Object → Option Object → Option Bytes → Scan → Type 0
ShowsCurrent done none key s = (s.index ≡ length done) × (s.item ≡ none) × (key ≡ none)
ShowsCurrent done (some o) key s = ShowsOpen done o s

-- The state of the machine for what was read.
pub record Shows (r : Reading) (s : Scan) : Type 0 where
  pub done_shown : ShowsDone r.done s
  pub current_shown : ShowsCurrent r.done r.current r.key s
  pub key_is : s.current_key ≡ r.key

flush_lem_none : (s : Scan) → s.item ≡ none → flush_item s ≡ s
unfolding flush_item
flush_lem_none s e = rw e

flush_lem_some :
    (s : Scan) (item : Bytes)
    → s.item ≡ some item
    → flush_item s ≡ record {
      out = s.out ++ comma_unless s.first_item ++ item ++ codes "}}";
      item = none;
      first_item = false;
      first_prop = s.first_prop;
      index = s.index;
      current_key = none;
    }
unfolding flush_item
flush_lem_some s item e = rw e

is_empty-concat {ℓ} : {A : Type ℓ} (done : List A) (o : A) → is_empty (done ++ o ∷ []) ≡ false
is_empty-concat [] o = refl
is_empty-concat (p ∷ done) o = refl

glue :
    (start m c head props end : Bytes)
    → start ++ m ++ c ++ (head ++ props) ++ end ≡ start ++ (m ++ (c ++ (head ++ (props ++ end))))
glue start m c head props end = simp append_assoc

next_item :
    (first : Bool) (done : List Object) (o : Object)
    → first ≡ is_empty done
    → comma_separated (numbered 0 done) ++ (comma_unless first ++ object_text (suc (length done)) o)
      ≡ comma_separated (numbered 0 (done ++ o ∷ []))
next_item first done o k =
    let e : 0 + length done ≡ length done = omega arith in
    ap
      (λ b.
        comma_separated (numbered 0 done) ++ (comma_unless b ++ object_text (suc (length done)) o))
      (k ∙ sym (is_empty-numbered 0 done))
    ∙ sym (comma_separated-concat (numbered 0 done) (object_text (suc (length done)) o))
    ∙ ap comma_separated (
        ap (λ n. numbered 0 done ++ object_text (suc n) o ∷ []) (sym e)
        ∙ sym (numbered-concat 0 done o))

flush_text :
    (out : Bytes) (first : Bool) (done : List Object) (o : Object)
    → out ≡ items_start ++ comma_separated (numbered 0 done)
    → first ≡ is_empty done
    → out
        ++ comma_unless first
        ++ (object_head (suc (length done)) o.path ++ comma_separated o.props)
        ++ codes "}}"
      ≡ items_start ++ comma_separated (numbered 0 (done ++ o ∷ []))
flush_text out first done o h k =
    ap
      (λ t.
        t
        ++ comma_unless first
        ++ (object_head (suc (length done)) o.path ++ comma_separated o.props)
        ++ codes "}}")
      h
    ∙ glue items_start (comma_separated (numbered 0 done)) (comma_unless first)
        (object_head (suc (length done)) o.path) (comma_separated o.props) (codes "}}")
    ∙ ap (λ t. items_start ++ t) (next_item first done o k)

pub flush-Shows :
    (done : List Object) (current : Option Object) (key : Option Bytes) (s : Scan)
    → Shows (reading done current key) s
    → Shows (reading (finish done current) none none) (flush_item s)
flush-Shows done none key s h =
    let (index_is, item_is, no_key) = h.current_shown in
    rw (flush_lem_none s item_is) (record {
      done_shown = h.done_shown;
      current_shown = (index_is, item_is, refl);
      key_is = h.key_is ∙ no_key;
    })
flush-Shows done (some o) key s h =
    let open_is = h.current_shown in
    rw (flush_lem_some s _ open_is.item_is) (record {
      done_shown = record {
        out_is = flush_text s.out s.first_item done o h.done_shown.out_is h.done_shown.first_is;
        first_is = sym (is_empty-concat done o);
      };
      current_shown = (omega (arith, open_is.index_is, length-append done (o ∷ [])), refl, refl);
      key_is = refl;
    })

pub comma_separated-nil : comma_separated [] ≡ []
unfolding comma_separated
comma_separated-nil = refl

pub open_item-Shows :
    (done : List Object) (path : Bytes) (s : Scan)
    → Shows (reading done none none) s
    → Shows (reading done (some (new_object path)) none) (open_item s path)
unfolding open_item
open_item-Shows done path s h =
    let (index_is, item_is, no_key) = h.current_shown in
    record {
      done_shown = record { out_is = h.done_shown.out_is; first_is = h.done_shown.first_is };
      current_shown = record {
        index_is = ap suc index_is;
        item_is =
            ap (λ n. some (object_head (suc n) path)) index_is
            ∙ ap some (
                sym (append-nil (object_head (suc (length done)) path))
                ∙ ap (λ t. object_head (suc (length done)) path ++ t) (sym comma_separated-nil));
        first_prop_is = refl;
      };
      key_is = h.key_is;
    }

pub with_key-Shows :
    (done : List Object) (o : Object) (key key' : Option Bytes) (s : Scan)
    → Shows (reading done (some o) key) s
    → Shows (reading done (some o) key') (with_key s key')
with_key-Shows done o key key' s h = record {
  done_shown = record { out_is = h.done_shown.out_is; first_is = h.done_shown.first_is };
  current_shown = record {
    index_is = h.current_shown.index_is;
    item_is = h.current_shown.item_is;
    first_prop_is = h.current_shown.first_prop_is;
  };
  key_is = refl;
}

prop_glue :
    (head props c key colon value : Bytes)
    → head ++ props ++ c ++ key ++ colon ++ value
      ≡ head ++ (props ++ (c ++ (key ++ (colon ++ value))))
prop_glue head props c key colon value = simp append_assoc

pub add_property-Shows :
    (done : List Object) (o : Object) (key line : Bytes) (s : Scan)
    → Shows (reading done (some o) (some key)) s
    → Shows (reading done (some (with_prop o (prop_text key line))) none) (
        add_property s (object_head (suc (length done)) o.path ++ comma_separated o.props) key line)
unfolding add_property
add_property-Shows done o key line s h = record {
  done_shown = record { out_is = h.done_shown.out_is; first_is = h.done_shown.first_is };
  current_shown = record {
    index_is = h.current_shown.index_is;
    item_is = ap some (item_text s.first_prop h.current_shown.first_prop_is);
    first_prop_is = sym (is_empty-concat o.props (prop_text key line));
  };
  key_is = refl;
}
  where
    item_text :
        (first : Bool)
        → first ≡ is_empty o.props
        → object_head (suc (length done)) o.path
            ++ comma_separated o.props
            ++ comma_unless first
            ++ json_escape key
            ++ codes ":"
            ++ append_dbus_variant_json line
          ≡ object_head (suc (length done)) o.path
            ++ comma_separated (o.props ++ prop_text key line ∷ [])
    item_text first e =
        prop_glue (object_head (suc (length done)) o.path) (comma_separated o.props)
          (comma_unless first) (json_escape key) (codes ":") (append_dbus_variant_json line)
        ∙ ap (λ t. object_head (suc (length done)) o.path ++ t)
            (ap (λ b. comma_separated o.props ++ (comma_unless b ++ prop_text key line)) e
              ∙ sym (comma_separated-concat o.props (prop_text key line)))
