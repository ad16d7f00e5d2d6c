-- ===== src/Shared/Constants.antt =====
-- shared/src/constants.ts.
use file_share_app.Base.{ℕ, ◌*◌, List, [], ◌∷◌}

abbrev pub protocol_version : ℕ
protocol_version = 1

abbrev pub default_chunk_size : ℕ
default_chunk_size = 256 * 1024

abbrev pub min_chunk_size : ℕ
min_chunk_size = 64 * 1024

abbrev pub max_chunk_size : ℕ
max_chunk_size = 1024 * 1024

abbrev pub chunk_size_ladder : List ℕ
chunk_size_ladder = (64 * 1024) ∷ (128 * 1024) ∷ (256 * 1024) ∷ (512 * 1024) ∷ (1024 * 1024) ∷ []

abbrev pub buffered_amount_high_watermark : ℕ
buffered_amount_high_watermark = 8 * 1024 * 1024

abbrev pub buffered_amount_low_watermark : ℕ
buffered_amount_low_watermark = 1 * 1024 * 1024

abbrev pub default_session_timeout_seconds : ℕ
default_session_timeout_seconds = 30 * 60

abbrev pub min_session_timeout_seconds : ℕ
min_session_timeout_seconds = 10 * 60

abbrev pub max_session_timeout_seconds : ℕ
max_session_timeout_seconds = 60 * 60

abbrev pub session_id_length : ℕ
session_id_length = 8

abbrev pub pairing_code_length : ℕ
pairing_code_length = 6

abbrev pub max_signaling_message_bytes : ℕ
max_signaling_message_bytes = 64 * 1024

abbrev pub signaling_rate_limit_window_ms : ℕ
signaling_rate_limit_window_ms = 10000

abbrev pub signaling_rate_limit_max_messages : ℕ
signaling_rate_limit_max_messages = 100

abbrev pub max_files_per_transfer : ℕ
max_files_per_transfer = 500

abbrev pub max_filename_length : ℕ
max_filename_length = 255
