-- ===== src/Client/QrPayload/RoundTrip.antt =====
-- What a built QR payload parses to.
use file_share_app.Base.{
  ℕ, ◌≤◌, ◌<◌, ◌≡◌, refl, Bool, true, some, length, ltb, Utf16, utf16_beq, arith, if◌then◌else◌,
  le→leb,
}
use file_share_app.Shared.Constants.{protocol_version}
use file_share_app.Shared.Json.{get_field, property}
use file_share_app.Shared.Schemas.{bounded_string}
use file_share_app.Shared.FileNames.{natural_from}
use file_share_app.Client.QrPayload.{
  parsed, expired, build_qr_payload, qr_pairing_payload, parse_qr_payload,
}

-- A payload built from a session id of 4 to 32 units, a token of 16 to 256 and a URL, that expires
-- at a positive time, parses to the same fields until that time, and as expired after it.
pub parse-build_qr_payload :
    (is_url : Utf16 → Bool) (now : ℕ) (session_id token url : Utf16) (expires_at : ℕ)
    → 4 ≤ length session_id
    → length session_id ≤ 32
    → 16 ≤ length token
    → length token ≤ 256
    → is_url url ≡ true
    → 0 < expires_at
    → parse_qr_payload is_url now (some (build_qr_payload session_id token url expires_at)) ≡ (
        if ltb expires_at now
        then expired
        else parsed (record {
          version = protocol_version;
          session_id = session_id;
          token = token;
          signaling_url = url;
          expires_at = expires_at;
        }))
unfolding parse_qr_payload qr_pairing_payload build_qr_payload property get_field bounded_string
    natural_from utf16_beq
parse-build_qr_payload is_url now session_id token url expires_at a b c d e f =
    rw
      (
        le→leb 4 (length session_id) a,
        le→leb (length session_id) 32 b,
        le→leb 16 (length token) c,
        le→leb (length token) 256 d,
        e,
        le→leb 1 expires_at (omega arith),
      )
      refl
