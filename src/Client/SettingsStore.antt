-- ===== src/Client/SettingsStore.antt =====
-- client/src/stores/useSettingsStore.ts; the `persist` middleware is left out.
use file_share_app.Base.{ℕ, Bool, true, false, Utf16, []}
use file_share_app.Shared.Constants.{default_chunk_size, default_session_timeout_seconds}

pub data AppearanceMode : Type 0 where
  light dark system : AppearanceMode

pub record Settings : Type 0 where
  pub appearance : AppearanceMode
  pub device_name : Utf16
  pub chunk_size : ℕ
  pub auto_resume : Bool
  pub confirm_incoming_transfers : Bool
  pub application_encryption : Bool
  pub session_timeout_seconds : ℕ

abbrev pub defaults : Settings
defaults = record {
  appearance = system;
  device_name = [];
  chunk_size = default_chunk_size;
  auto_resume = true;
  confirm_incoming_transfers = true;
  application_encryption = false;
  session_timeout_seconds = default_session_timeout_seconds;
}

abbrev pub set_appearance : AppearanceMode → Settings → Settings
set_appearance mode s = record s { appearance = mode }

abbrev pub set_device_name : Utf16 → Settings → Settings
set_device_name name s = record s { device_name = name }

abbrev pub set_chunk_size : ℕ → Settings → Settings
set_chunk_size size s = record s { chunk_size = size }

abbrev pub set_auto_resume : Bool → Settings → Settings
set_auto_resume v s = record s { auto_resume = v }

abbrev pub set_confirm_incoming_transfers : Bool → Settings → Settings
set_confirm_incoming_transfers v s = record s { confirm_incoming_transfers = v }

abbrev pub set_application_encryption : Bool → Settings → Settings
set_application_encryption v s = record s { application_encryption = v }

abbrev pub set_session_timeout_seconds : ℕ → Settings → Settings
set_session_timeout_seconds seconds s = record s { session_timeout_seconds = seconds }
