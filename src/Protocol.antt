-- ===== src/Protocol.antt =====
-- crates/roughenough-protocol: the wire format.
pub mod Error
pub mod Cursor
pub mod Tag
pub mod Header
pub mod Version
pub mod Tags
pub mod Wire
pub mod Request
pub mod Response
