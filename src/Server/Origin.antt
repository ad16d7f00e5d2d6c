-- ===== src/Server/Origin.antt =====
-- server/src/security/origin.ts, and the address that the relay counts a connection under.
use file_share_app.Base.{
  Bool, true, false, ◌||◌, List, [], ◌∷◌, ℕ, eqb, if◌then◌else◌, Option, none, some, Utf16,
  utf16_eq, units, ◌==◌,
}
use file_share_app.Shared.FileNames.{trim_start, trim_end}

abbrev includes_origin : List Utf16 → Utf16 → Bool
includes_origin [] origin = false
includes_origin (o ∷ os) origin = o == origin || includes_origin os origin

-- A missing origin and the empty one are refused by a list that is not empty.
unfoldable pub is_origin_allowed : Option Utf16 → List Utf16 → Bool
is_origin_allowed origin [] = true
is_origin_allowed none (o ∷ os) = false
is_origin_allowed (some []) (o ∷ os) = false
is_origin_allowed (some (u ∷ us)) (o ∷ os) =
    includes_origin (o ∷ os) (u ∷ us) || includes_origin (o ∷ os) (units "*")

-- `env.split(",")`: unit 44.
unfoldable pub split_commas : Utf16 → List Utf16
split_commas [] = [] ∷ []
split_commas (u ∷ us) =
    let rest = split_commas us in if eqb u 44 then [] ∷ rest else add_to_first u rest
  where
    add_to_first : ℕ → List Utf16 → List Utf16
    add_to_first u [] = (u ∷ []) ∷ []
    add_to_first u (s ∷ ss) = (u ∷ s) ∷ ss

abbrev put_nonempty : Utf16 → List Utf16 → List Utf16
put_nonempty [] rest = rest
put_nonempty (u ∷ us) rest = (u ∷ us) ∷ rest

abbrev trimmed_nonempty : List Utf16 → List Utf16
trimmed_nonempty [] = []
trimmed_nonempty (s ∷ ss) = put_nonempty (trim_end (trim_start s)) (trimmed_nonempty ss)

-- `parseAllowedOrigins`; a missing value and the empty one give no list.
unfoldable pub parse_allowed_origins : Option Utf16 → List Utf16
unfolding split_commas trim_start trim_end
parse_allowed_origins none = []
parse_allowed_origins (some []) = []
parse_allowed_origins (some (u ∷ us)) = trimmed_nonempty (split_commas (u ∷ us))

abbrev first_or : Utf16 → List Utf16 → Utf16
first_or default [] = default
first_or default (s ∷ ss) = s

abbrev address_or_unknown : Option Utf16 → Utf16
address_or_unknown none = units "unknown"
address_or_unknown (some a) = a

-- server/src/signaling/relay.ts, `clientIpFor`, from the header `x-forwarded-for` and the address of
-- the socket.
unfoldable pub client_ip_for : Option Utf16 → Option Utf16 → Utf16
unfolding split_commas trim_start trim_end
client_ip_for none remote_address = address_or_unknown remote_address
client_ip_for (some []) remote_address = address_or_unknown remote_address
client_ip_for (some (u ∷ us)) remote_address =
    trim_end (trim_start (first_or [] (split_commas (u ∷ us))))
