-- ===== src/Client/ConnectionStore.antt =====
-- client/src/stores/useConnectionStore.ts, with the states of shared/src/types.ts.
use file_share_app.Base.{ℕ, Option, none, Utf16}

pub data ConnectionState : Type 0 where
  creating_session waiting_for_receiver receiver_connected negotiating connecting : ConnectionState
  connected transferring paused reconnecting completed cancelled failed expired : ConnectionState

pub record ConnectionStore : Type 0 where
  pub connection_state : ConnectionState
  pub peer_display_name : Option Utf16
  pub session_id : Option Utf16
  pub token : Option Utf16
  pub pairing_code : Option Utf16
  pub expires_at : Option ℕ
  pub error_message : Option Utf16

abbrev pub initial : ConnectionStore
initial = record {
  connection_state = creating_session;
  peer_display_name = none;
  session_id = none;
  token = none;
  pairing_code = none;
  expires_at = none;
  error_message = none;
}

abbrev pub set_connection_state : ConnectionState → ConnectionStore → ConnectionStore
set_connection_state state s = record s { connection_state = state }

abbrev pub set_peer : Option Utf16 → ConnectionStore → ConnectionStore
set_peer name s = record s { peer_display_name = name }

abbrev pub set_session :
    Option Utf16 → Option Utf16 → Option Utf16 → Option ℕ → ConnectionStore → ConnectionStore
set_session session_id token pairing_code expires_at s = record s {
  session_id = session_id;
  token = token;
  pairing_code = pairing_code;
  expires_at = expires_at;
}

abbrev pub set_error : Option Utf16 → ConnectionStore → ConnectionStore
set_error message s = record s { error_message = message }

abbrev pub reset : ConnectionStore → ConnectionStore
reset s = initial
