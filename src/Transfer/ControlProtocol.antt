-- ===== src/Transfer/ControlProtocol.antt =====
-- The messages of the data channels: shared/src/types.ts, and controlProtocol.ts of
-- client/src/services/transfer. A text of a channel that is no message (`parseControlMessage`
-- returns null) is `none`; the fields have the types that types.ts declares, except that an offer
-- stands as the value it was parsed to, for its schema to check. `ts` is left out elsewhere.
use file_share_app.Base.{ℕ, Bool, Option, none, some, Utf16, utf16_eq, units, ◌==◌, if◌then◌else◌}
use file_share_app.Base.Dict.{Dict}
use file_share_app.Shared.Json.{Json, string, property}
use file_share_app.Transfer.Delivery.{ChunkMeta}

pub data ControlMessage : Type 0 where
  session_init : Utf16 → Bool → Option Utf16 → Option Utf16 → ControlMessage
  file_offer : Json → ControlMessage
  file_accept : Utf16 → Option (Dict Utf16 ℕ) → ControlMessage
  file_reject : Utf16 → ControlMessage
  chunk_meta : ChunkMeta → ControlMessage
  chunk_ack : Utf16 → ℕ → ControlMessage
  pause resume : Option Utf16 → ControlMessage
  cancel : Option Utf16 → ControlMessage
  file_complete : Utf16 → Utf16 → ControlMessage
  transfer_complete : Utf16 → ControlMessage
  resume_request : Utf16 → ℕ → ControlMessage
  error : Utf16 → Utf16 → ControlMessage
  ping pong : ControlMessage

-- `typeof parsed?.type === "string"`, of what `JSON.parse` returned, if it did not throw.
unfoldable pub has_type : Option Json → Bool
unfolding property
has_type none = Bool.false
has_type (some v) = is_text (property (units "type") v)
  where
    is_text : Option Json → Bool
    is_text (some (string s)) = Bool.true
    is_text _ = Bool.false

-- `parseControlMessage`
unfoldable pub parse_control_message : Option Json → Option Json
unfolding has_type
parse_control_message parsed = if has_type parsed then parsed else none

-- `isType`
unfoldable pub is_type : Json → Utf16 → Bool
unfolding property
is_type v kind = same_text (property (units "type") v)
  where
    same_text : Option Json → Bool
    same_text (some (string s)) = s == kind
    same_text _ = Bool.false
