-- ===== src/Client/QrPayload.antt =====
-- client/src/services/qr/qrPayload.ts, with qrPairingPayloadSchema of shared/src/schemas.ts. The
-- text of a payload stands as the value that JSON.parse makes of it, and is `none` when it throws.
-- `z.string().url()` is the parameter `is_url`.
pub mod RoundTrip
use file_share_app.Base.{
  ℕ, Bool, true, false, Option, none, some, eqb, ltb, Utf16, utf16_eq, units, ◌>>=◌, if◌then◌else◌,
}
use file_share_app.Shared.Constants.{protocol_version}
use file_share_app.Shared.Json.{Json, nil, field, number, string, object, property}
use file_share_app.Shared.Schemas.{bounded_string}
use file_share_app.Shared.FileNames.{natural_from}

pub record QrPairingPayload : Type 0 where
  pub version : ℕ
  pub session_id : Utf16
  pub token : Utf16
  pub signaling_url : Utf16
  pub expires_at : ℕ

pub data QrParseResult : Type 0 where
  parsed : QrPairingPayload → QrParseResult
  invalid_format invalid_schema expired : QrParseResult

-- `buildQrPayload`
unfoldable pub build_qr_payload : Utf16 → Utf16 → Utf16 → ℕ → Json
build_qr_payload session_id token signaling_url expires_at = object (
    field (units "version") (number protocol_version) (
      field (units "sessionId") (string session_id) (
        field (units "token") (string token) (
          field (units "signalingUrl") (string signaling_url)
            (field (units "expiresAt") (number expires_at) nil)))))

-- `z.literal(PROTOCOL_VERSION)`
abbrev pub version_literal : Option Json → Option ℕ
version_literal (some (number n)) = if eqb n protocol_version then some n else none
version_literal _ = none

module _ (is_url : Utf16 → Bool) where
  abbrev pub url_text : Option Json → Option Utf16
  url_text (some (string s)) = if is_url s then some s else none
  url_text _ = none

  -- qrPairingPayloadSchema
  unfoldable pub qr_pairing_payload : Json → Option QrPairingPayload
  unfolding bounded_string natural_from property
  qr_pairing_payload v = do
    version ← version_literal (property (units "version") v)
    session_id ← bounded_string 4 32 (property (units "sessionId") v)
    token ← bounded_string 16 256 (property (units "token") v)
    signaling_url ← url_text (property (units "signalingUrl") v)
    expires_at ← natural_from 1 (property (units "expiresAt") v)
    some (record {
      version = version;
      session_id = session_id;
      token = token;
      signaling_url = signaling_url;
      expires_at = expires_at;
    })

  abbrev pub unless_expired : ℕ → Option QrPairingPayload → QrParseResult
  unless_expired now none = invalid_schema
  unless_expired now (some p) = if ltb p.expires_at now then expired else parsed p

  -- `parseQrPayload`
  unfoldable pub parse_qr_payload : ℕ → Option Json → QrParseResult
  unfolding qr_pairing_payload
  parse_qr_payload now none = invalid_format
  parse_qr_payload now (some v) = unless_expired now (qr_pairing_payload v)
