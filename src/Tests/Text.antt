-- ===== src/Tests/Text.antt =====
-- Concrete runs of src/common.c and src/json_util.c.
use cellmgr.Base.{ℕ, Bool, true, false, some, [], ◌∷◌, ◌++◌, ◌≡◌, refl, arith, codes}
use cellmgr.Common.Buf.{Buf, IsValid, buf_append_n}
use cellmgr.Common.Buf.Append.{Appended, buf_append_n-Appended}
use cellmgr.Libc.Text.{isdigit}
use cellmgr.Libc.Number.{StopsNumber}
use cellmgr.Json.Escape.{escape_bytes, json_escape, json_prop_string}
use cellmgr.Json.Lookup.{json_get_string}
use cellmgr.Json.Strings.{read_string, read_string-json_escape}
use cellmgr.Json.RoundTrip.{json_get_string-json_prop_string}

abbrev grants_all : ℕ → Bool
grants_all n = true

abbrev zeros : ℕ → ℕ
zeros n = 0

abbrev small : Buf
small = record { cells = b'a' ∷ 0 ∷ 7 ∷ []; len = 1; cap = 3 }

small-IsValid : IsValid small
small-IsValid = record { sized = refl; below = omega arith; ends = refl }

buf_append_n-Appended_example :
    Appended small (codes "bcd") (buf_append_n grants_all zeros small (codes "bcd"))
buf_append_n-Appended_example =
    buf_append_n-Appended grants_all zeros small (codes "bcd") small-IsValid (omega arith)

read_string-json_escape_example :
    read_string (json_escape (codes "a\"b\n") ++ codes ",1") ≡ some (codes "a\"b\n", codes ",1")
read_string-json_escape_example = read_string-json_escape (codes "a\"b\n") (codes ",1")

sender_key : escape_bytes (codes "sender") ≡ codes "sender"
unfolding escape_bytes
sender_key = refl

json_get_string-json_prop_string_example :
    json_get_string
      (b'{' ∷ (json_prop_string (codes "sender") (codes "+49\n") false ++ codes "}"))
      (codes "sender")
    ≡ some (codes "+49\n")
json_get_string-json_prop_string_example =
    json_get_string-json_prop_string (codes "sender") (codes "+49\n") (codes "}")
      (sender_key, omega arith) (ground arith)

brace_stops : StopsNumber (codes "}")
unfolding isdigit
brace_stops = refl

index_key : escape_bytes (codes "index") ≡ codes "index"
unfolding escape_bytes
index_key = refl
