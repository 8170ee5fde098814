-- ===== src/Tests.antt =====
-- The theorems at concrete inputs.
mod Merkle
mod Protocol
mod Requests
mod Client
mod Server
