-- ===== src/Server/Ids.antt =====
-- server/src/utils/id.ts. The bytes of `randomBytes(length)` are the argument; the token, which is
-- Node's base64url of 32 random bytes, is an argument of its own where it is used.
use file_share_app.Base.{ℕ, ◌+◌, ◌%◌, List, [], ◌∷◌, Option, none, some, Utf16, units, get_elem?}

abbrev pub session_id_alphabet : Utf16
session_id_alphabet = units "ABCDEFGHJKLMNPQRSTUVWXYZ23456789"

abbrev pub or_nothing : Option ℕ → Utf16 → Utf16
or_nothing none rest = rest
or_nothing (some u) rest = u ∷ rest

-- One letter for each byte.
unfoldable pub generate_session_id : List ℕ → Utf16
generate_session_id [] = []
generate_session_id (b ∷ bytes) =
    or_nothing (get_elem? session_id_alphabet (b % 32)) (generate_session_id bytes)

-- `(bytes[i] % 10).toString()`: the digit 0 is unit 48.
unfoldable pub generate_pairing_code : List ℕ → Utf16
generate_pairing_code [] = []
generate_pairing_code (b ∷ bytes) = (48 + b % 10) ∷ generate_pairing_code bytes
