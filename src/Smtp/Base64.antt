-- ===== src/Smtp/Base64.antt =====
-- `base64_encode` of src/smtp.c.
use cellmgr.Base.{ℕ, ◌+◌, ◌*◌, ◌/◌, ◌%◌, [], ◌∷◌, Bytes, codes, get_or}

abbrev pub b64_table : Bytes
b64_table = codes "ABCDEFGHIJKLMNOPQRSTUVWXYZabcdefghijklmnopqrstuvwxyz0123456789+/"

-- `b64_table[n]`
unfoldable pub b64_char : ℕ → ℕ
b64_char n = get_or b64_table n 0

-- `v` holds three bytes; `v >> k` and `& 63` are a quotient and a remainder.
unfoldable pub base64_encode : Bytes → Bytes
base64_encode [] = []
base64_encode (a ∷ []) =
    let v = a * 65_536 in b64_char (v / 262_144 % 64) ∷ b64_char (v / 4096 % 64) ∷ b'=' ∷ b'=' ∷ []
base64_encode (a ∷ b ∷ []) =
    let v = a * 65_536 + b * 256 in
    b64_char (v / 262_144 % 64) ∷ b64_char (v / 4096 % 64) ∷ b64_char (v / 64 % 64) ∷ b'=' ∷ []
base64_encode (a ∷ b ∷ c ∷ s) =
    let v = a * 65_536 + b * 256 + c in
    b64_char (v / 262_144 % 64)
    ∷ b64_char (v / 4096 % 64)
    ∷ b64_char (v / 64 % 64)
    ∷ b64_char (v % 64)
    ∷ base64_encode s
