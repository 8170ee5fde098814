-- ===== src/Server.antt =====
-- crates/roughenough-server: what the server does with the datagrams that it receives.
pub mod Metrics
pub mod Responses
pub mod Requests
pub mod Network
pub mod Worker
