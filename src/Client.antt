-- ===== src/Client.antt =====
-- crates/roughenough-client: how servers are asked, and the client's checks of what they answer.
pub mod Validation
pub mod Measurement
pub mod Causality
pub mod Query
pub mod Sequence
