-- ===== src/Tests.antt =====
-- Concrete inputs: toy instances of what the repository takes from other packages, runs of the
-- code, and each theorem applied where its conditions hold.
mod Toys
mod Transfers
mod Limits
mod Signaling
mod Sessions
mod Startup
mod Listeners
mod Cursors
