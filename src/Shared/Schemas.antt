-- ===== src/Shared/Schemas.antt =====
-- shared/src/schemas.ts: the payloads that the signaling server reads. `none` is a failed
-- `safeParse`; of an optional field, `some none` is its absence. Lengths count UTF-16 units.

use mathlib.Core.Option.{some-injective}
use file_share_app.Base.{
  subst, Bool-cases, inl, inr, ◌≡◌, ℕ, Bool, true, false, ◌&&◌, ◌||◌, [], ◌∷◌, length, Option, none,
  some, leb, Utf16, utf16_eq, units, ◌==◌, ◌>>=◌, if◌then◌else◌,
}
use file_share_app.Shared.Constants.{min_session_timeout_seconds, max_session_timeout_seconds}
use file_share_app.Shared.Json.{Json, null, number, negative, string, object, property}

-- `z.string().min(low).max(high)`
unfoldable pub bounded_string : ℕ → ℕ → Option Json → Option Utf16
bounded_string low high (some (string s)) =
    if leb low (length s) && leb (length s) high then some s else none
bounded_string low high _ = none

-- `z.number().int().min(low).max(high)`
unfoldable pub bounded_number : ℕ → ℕ → Option Json → Option ℕ
bounded_number low high (some (number n)) = if leb low n && leb n high then some n else none
bounded_number low high _ = none

-- `z.number().int()`
unfoldable pub integer : Option Json → Option Json
integer (some (number n)) = some (number n)
integer (some (negative n)) = some (negative n)
integer _ = none

abbrev present {ℓ} : {A : Type ℓ} → Option A → Option (Option A)
present none = none
present (some a) = some (some a)

-- `.optional()`
unfoldable pub optional {ℓ} :
    {A : Type ℓ} → (Option Json → Option A) → Option Json → Option (Option A)
optional schema none = some none
optional schema (some v) = present (schema (some v))

-- `.nullable()`: null is `some none`.
unfoldable pub nullable {ℓ} :
    {A : Type ℓ} → (Option Json → Option A) → Option Json → Option (Option A)
nullable schema (some null) = some none
nullable schema v = present (schema v)

-- `z.object`: a value that is no object fails.
abbrev is_object : Option Json → Bool
is_object (some (object fields)) = true
is_object _ = false

abbrev of : Utf16 → Option Json → Option Json
of name none = none
of name (some v) = property name v

pub record CreateSessionPayload : Type 0 where
  pub display_name : Utf16
  pub timeout_seconds : Option ℕ

unfoldable pub create_session_payload : Option Json → Option CreateSessionPayload
unfolding bounded_string bounded_number optional property
create_session_payload v = do
  display_name ← bounded_string 1 64 (of (units "displayName") v)
  timeout_seconds ←
      optional (bounded_number min_session_timeout_seconds max_session_timeout_seconds)
        (of (units "timeoutSeconds") v)
  some (record { display_name = display_name; timeout_seconds = timeout_seconds })

pub record JoinSessionPayload : Type 0 where
  pub session_id : Option Utf16
  pub token : Option Utf16
  pub pairing_code : Option Utf16
  pub display_name : Utf16

-- Whether an optional string is there and not empty.
abbrev pub is_truthy : Option Utf16 → Bool
is_truthy none = false
is_truthy (some []) = false
is_truthy (some (u ∷ us)) = true

-- `.refine((v) => (v.sessionId && v.token) || v.pairingCode)`
unfoldable pub has_credentials : JoinSessionPayload → Bool
has_credentials p = is_truthy p.session_id && is_truthy p.token || is_truthy p.pairing_code

refined : JoinSessionPayload → Option JoinSessionPayload
unfolding has_credentials
refined p = if has_credentials p then some p else none

-- The object, when each of its fields passes.
join_fields :
    Option (Option Utf16)
    → Option (Option Utf16)
    → Option (Option Utf16)
    → Option Utf16
    → Option JoinSessionPayload
unfolding refined
join_fields session_id token pairing_code display_name = do
  session_id ← session_id
  token ← token
  pairing_code ← pairing_code
  display_name ← display_name
  refined (record {
    session_id = session_id;
    token = token;
    pairing_code = pairing_code;
    display_name = display_name;
  })

unfoldable pub join_session_payload : Option Json → Option JoinSessionPayload
unfolding bounded_string optional property join_fields
join_session_payload v =
    join_fields (optional (bounded_string 4 32) (of (units "sessionId") v))
      (optional (bounded_string 16 256) (of (units "token") v))
      (optional (bounded_string 4 12) (of (units "pairingCode") v))
      (bounded_string 1 64 (of (units "displayName") v))

refined-has_credentials : (q p : JoinSessionPayload) → refined q ≡ some p → has_credentials p ≡ true
unfolding refined
refined-has_credentials q p e = elim (Bool-cases (has_credentials q)) [
  | inl h ↦ subst (λ r. has_credentials r ≡ true) (some-injective _ _ (rw h at e)) h
  | inr h ↦ cc (rw h at e)
]

join_fields-has_credentials :
    (a b c : Option (Option Utf16)) (d : Option Utf16) (p : JoinSessionPayload)
    → join_fields a b c d ≡ some p
    → has_credentials p ≡ true
unfolding join_fields
join_fields-has_credentials none b c d p e = cc
join_fields-has_credentials (some a) none c d p e = cc
join_fields-has_credentials (some a) (some b) none d p e = cc
join_fields-has_credentials (some a) (some b) (some c) none p e = cc
join_fields-has_credentials (some a) (some b) (some c) (some d) p e = refined-has_credentials _ p e

-- A payload that passes has what the refinement asks for.
pub join_session_payload-has_credentials :
    (v : Option Json) (p : JoinSessionPayload)
    → join_session_payload v ≡ some p
    → has_credentials p ≡ true
unfolding join_session_payload
join_session_payload-has_credentials v p =
    join_fields-has_credentials (optional (bounded_string 4 32) (of (units "sessionId") v))
      (optional (bounded_string 16 256) (of (units "token") v))
      (optional (bounded_string 4 12) (of (units "pairingCode") v))
      (bounded_string 1 64 (of (units "displayName") v)) p

unfoldable pub sdp_type : Option Json → Option Utf16
sdp_type (some (string s)) =
    if s == units "offer"
      || (s == units "answer" || (s == units "pranswer" || s == units "rollback"))
    then some s
    else none
sdp_type _ = none

pub record SdpPayload : Type 0 where
  pub kind : Utf16
  pub sdp : Option Utf16

unfoldable pub sdp_payload : Option Json → Option SdpPayload
unfolding bounded_string optional property sdp_type
sdp_payload v = do
  kind ← sdp_type (of (units "type") (of (units "sdp") v))
  sdp ← optional (bounded_string 0 200000) (of (units "sdp") (of (units "sdp") v))
  some (record { kind = kind; sdp = sdp })

pub record IceCandidatePayload : Type 0 where
  pub candidate : Option Utf16
  pub sdp_mid : Option (Option Utf16)
  pub sdp_m_line_index : Option (Option Json)
  pub username_fragment : Option (Option Utf16)

candidate_fields : Option Json → Option IceCandidatePayload
unfolding bounded_string integer optional nullable property
candidate_fields c = do
  candidate ← optional (bounded_string 0 4096) (of (units "candidate") c)
  sdp_mid ← optional (nullable (bounded_string 0 256)) (of (units "sdpMid") c)
  sdp_m_line_index ← optional (nullable integer) (of (units "sdpMLineIndex") c)
  username_fragment ← optional (nullable (bounded_string 0 256)) (of (units "usernameFragment") c)
  some (record {
    candidate = candidate;
    sdp_mid = sdp_mid;
    sdp_m_line_index = sdp_m_line_index;
    username_fragment = username_fragment;
  })

unfoldable pub ice_candidate_payload : Option Json → Option IceCandidatePayload
unfolding candidate_fields property
ice_candidate_payload v =
    if is_object (of (units "candidate") v)
    then candidate_fields (of (units "candidate") v)
    else none
