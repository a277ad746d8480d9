-- ===== src/Json/RoundTrip.antt =====
-- What `json_get_string` and `json_get_int` of src/json_util.c read of a property that
-- `json_prop_string` and `json_prop_int` wrote.
use cellmgr.Base.{
  ℕ, ◌/◌, ◌%◌, ◌<◌, ◌≤◌, false, ◌||◌, some, [], ◌∷◌, ◌++◌, ◌≡◌, ◌≢◌, refl, sym, ap, ◌∙◌, ◌⊎◌, arith,
  ◌==◌, ltb, if◌then◌else◌, Bytes, All, append_assoc, length, length-append, take-le,
  drop-length-append,
}
use cellmgr.Base.Int.{ℤ, IsInt}
use cellmgr.Json.Escape.{
  quote, backslash, hex_digit, escape_byte, escape_bytes, json_escape, json_prop_string,
  json_prop_int,
}
use cellmgr.Json.Lookup.{
  key_needle, find_key_value, unescape_byte, unquote, json_get_string, json_get_int,
}
use cellmgr.Libc.Number.{show_int, atoi, atoi-show_int, show_int_solid, StopsNumber}
use cellmgr.Libc.Text.{
  isspace, skip_while, strstr, strstr_skip, strstr-prefix, has_prefix, has_prefix-append,
}

-- What is read back in place of one byte: `\b`, `\f` and `\u00xx` lose their backslash.
abbrev pub read_back : ℕ → Bytes
read_back c =
    if c == 8
    then b'b' ∷ []
    else if c == 12
    then b'f' ∷ []
    else if c == 9 || c == 10 || c == 13
    then c ∷ []
    else if ltb c 32
    then b'u' ∷ b'0' ∷ b'0' ∷ hex_digit (c / 16) ∷ hex_digit (c % 16) ∷ []
    else c ∷ []

abbrev pub read_back_all : Bytes → Bytes
read_back_all [] = []
read_back_all (c ∷ s) = read_back c ++ read_back_all s

-- A byte that comes back as it is: no control character but tab and line ends.
abbrev pub Readable : ℕ → Type 0
Readable c = (32 ≤ c) ⊎ (c ≡ 9) ⊎ (c ≡ 10) ⊎ (c ≡ 13)

unquote_plain :
    (c d : ℕ) (p : Bytes) → c ≢ quote → c ≢ backslash → unquote (c ∷ d ∷ p) ≡ c ∷ unquote (d ∷ p)
unfolding unquote
unquote_plain c d p h k = ground arith

unquote_escaped : (e : ℕ) (p : Bytes) → unquote (backslash ∷ e ∷ p) ≡ unescape_byte e ∷ unquote p
unfolding unquote
unquote_escaped e p = refl

-- `\u00xx` is read as the five characters behind the backslash.
unquote_unicode :
    (c d : ℕ) (p : Bytes)
    → c < 32
    → unquote (backslash ∷ b'u' ∷ b'0' ∷ b'0' ∷ hex_digit (c / 16) ∷ hex_digit (c % 16) ∷ d ∷ p)
      ≡ b'u' ∷ b'0' ∷ b'0' ∷ hex_digit (c / 16) ∷ hex_digit (c % 16) ∷ unquote (d ∷ p)
unfolding unquote
unquote_unicode c d p h = ground arith

unquote-escape_byte :
    (c d : ℕ) (p : Bytes) → unquote (escape_byte c ++ d ∷ p) ≡ read_back c ++ unquote (d ∷ p)
unfolding escape_byte unescape_byte
unquote-escape_byte c d p = ground (
  arith,
  unquote_plain c d p,
  unquote_unicode c d p,
  unquote_escaped quote (d ∷ p),
  unquote_escaped backslash (d ∷ p),
  unquote_escaped b'b' (d ∷ p),
  unquote_escaped b'f' (d ∷ p),
  unquote_escaped b'n' (d ∷ p),
  unquote_escaped b'r' (d ∷ p),
  unquote_escaped b't' (d ∷ p),
)

concat_begins : (s rest : Bytes) → (d : ℕ) × (p : Bytes) × (s ++ quote ∷ rest ≡ d ∷ p)
concat_begins [] rest = (quote, rest, refl)
concat_begins (c ∷ s) rest = (c, s ++ quote ∷ rest, refl)

-- What `json_get_string` reads of any escaped text.
pub unquote-escape_bytes :
    (s rest : Bytes) → unquote (escape_bytes s ++ quote ∷ rest) ≡ read_back_all s
unfolding escape_bytes
unquote-escape_bytes [] [] = unfold unquote in refl
unquote-escape_bytes [] (r ∷ rest) = unfold unquote in refl
unquote-escape_bytes (c ∷ s) rest =
    let (d, p, e) = concat_begins (escape_bytes s) rest in
    rw (append_assoc, e)
      (unquote-escape_byte c d p
        ∙ rw (← e) (ap (λ t. read_back c ++ t) (unquote-escape_bytes s rest)))

pub read_back-Readable : (s : Bytes) → All Readable s → read_back_all s ≡ s
read_back-Readable [] h = refl
read_back-Readable (c ∷ s) h = ground (arith, read_back-Readable s)

-- A key that is written as it is and fits the needle.
abbrev pub IsKey : Bytes → Type 0
IsKey k = (escape_bytes k ≡ k) × (length k ≤ 157)

key_needle-IsKey : (k : Bytes) → IsKey k → key_needle k ≡ quote ∷ (k ++ quote ∷ [])
key_needle-IsKey k h =
    unfold key_needle in take-le 159 _ (omega (arith, length-append k (quote ∷ [])))

skip_solid : (c : ℕ) (p : Bytes) → isspace c ≡ false → skip_while isspace (c ∷ p) ≡ c ∷ p
unfolding skip_while
skip_solid c p h = rw h

-- The value behind a key that was found.
find_key_value-found :
    (json k rest : Bytes) (c : ℕ)
    → strstr json (key_needle k) ≡ some (key_needle k ++ b':' ∷ c ∷ rest)
    → isspace c ≡ false
    → find_key_value json k ≡ some (c ∷ rest)
unfolding find_key_value
find_key_value-found json k rest c found solid =
    rw (find_key_value, found, drop-length-append _ (key_needle k) (b':' ∷ c ∷ rest) refl)
      (ap some (skip_solid c rest solid))

prop_string-append :
    (k v rest : Bytes)
    → IsKey k
    → json_prop_string k v false ++ rest
      ≡ key_needle k ++ b':' ∷ quote ∷ (escape_bytes v ++ quote ∷ rest)
unfolding json_prop_string
prop_string-append k v rest h = rw (key_needle-IsKey k h, h.0) (simp append_assoc)

prop_int-append :
    (k : Bytes) (z : ℤ) (rest : Bytes)
    → IsKey k
    → json_prop_int k z false ++ rest ≡ key_needle k ++ b':' ∷ (show_int z ++ rest)
unfolding json_prop_int json_escape
prop_int-append k z rest h = rw (key_needle-IsKey k h, h.0) (simp append_assoc)

-- Where the first occurrence of the quoted key is the property that `json_prop_string` wrote,
-- `json_get_string` returns its value as `read_back` describes it.
pub json_get_string-found :
    (json k v rest : Bytes)
    → IsKey k
    → strstr json (key_needle k) ≡ some (json_prop_string k v false ++ rest)
    → json_get_string json k ≡ some (read_back_all v)
unfolding json_get_string
json_get_string-found json k v rest h found =
    rw
      (
        json_get_string,
        find_key_value-found json k _ quote (found ∙ ap some (prop_string-append k v rest h)) refl,
      )
      (ap some (unquote-escape_bytes v rest))

json_get_int_lem :
    (json k p : Bytes) (d : ℤ) → find_key_value json k ≡ some p → json_get_int json k d ≡ atoi p
unfolding json_get_int
json_get_int_lem json k p d h = rw (json_get_int, h)

-- Where the first occurrence of the quoted key is the property that `json_prop_int` wrote,
-- `json_get_int` returns its value.
pub json_get_int-found :
    (json k : Bytes) (z d : ℤ) (rest : Bytes)
    → IsKey k
    → IsInt z
    → StopsNumber rest
    → strstr json (key_needle k) ≡ some (json_prop_int k z false ++ rest)
    → json_get_int json k d ≡ z
json_get_int-found json k z d rest h small stops found =
    let (c, t, e, solid) = show_int_solid z rest in
    let begun =
      found ∙ ap some (prop_int-append k z rest h ∙ ap (λ s. key_needle k ++ b':' ∷ s) e) in
    json_get_int_lem json k _ d (find_key_value-found json k t c begun solid)
    ∙ ap atoi (sym e)
    ∙ atoi-show_int z rest small stops

-- An object begins with its first property.
object-first :
    (k prop rest tail : Bytes)
    → IsKey k
    → prop ++ rest ≡ key_needle k ++ tail
    → strstr (b'{' ∷ (prop ++ rest)) (key_needle k) ≡ some (prop ++ rest)
object-first k prop rest tail h e =
    strstr_skip b'{' (prop ++ rest) (key_needle k)
      (rw (key_needle-IsKey k h) (unfold has_prefix in refl))
    ∙ strstr-prefix (prop ++ rest) (key_needle k) (rw e (has_prefix-append (key_needle k) tail))

-- The first property of an object, a string of readable bytes, is read back exactly.
pub json_get_string-json_prop_string :
    (k v rest : Bytes)
    → IsKey k
    → All Readable v
    → json_get_string (b'{' ∷ (json_prop_string k v false ++ rest)) k ≡ some v
json_get_string-json_prop_string k v rest h readable =
    json_get_string-found _ k v rest h
      (object-first k (json_prop_string k v false) rest _ h (prop_string-append k v rest h))
    ∙ ap some (read_back-Readable v readable)

-- The first property of an object, an `int` with no digit behind it, is read back exactly.
pub json_get_int-json_prop_int :
    (k : Bytes) (z d : ℤ) (rest : Bytes)
    → IsKey k
    → IsInt z
    → StopsNumber rest
    → json_get_int (b'{' ∷ (json_prop_int k z false ++ rest)) k d ≡ z
json_get_int-json_prop_int k z d rest h small stops =
    json_get_int-found _ k z d rest h small stops
      (object-first k (json_prop_int k z false) rest _ h (prop_int-append k z rest h))
