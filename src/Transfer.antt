-- ===== src/Transfer.antt =====
-- The transfer engine of the client, client/src/services/transfer and what it rests on.
pub mod ChunkSize
pub mod StateMachine
pub mod Crypto
pub mod Pump
pub mod Sink
pub mod ChunkReceiver
pub mod Delivery
pub mod ControlProtocol
pub mod Receiver
pub mod Sender
pub mod Speed
