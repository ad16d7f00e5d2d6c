-- ===== src/Client.antt =====
-- The client around a transfer (client/src).
pub mod Signaling
pub mod TransferStore
pub mod Storage
pub mod QrPayload
pub mod ConnectionStore
pub mod SettingsStore
pub mod SessionStore
pub mod PeerConnection
pub mod HistoryStore
