-- ===== src/Shared.antt =====
-- shared/src: what client and server have in common.
pub mod Constants
pub mod Json
pub mod Schemas
pub mod FileNames
pub mod Offers
