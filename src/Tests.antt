-- ===== src/Tests.antt =====
-- The theorems at concrete inputs, over a small message library.
mod Sample
mod Transfers
mod Callbacks
mod Spins
mod Runs
mod Lives
mod Neighbors
mod Payloads
mod Outbox
mod Interface
