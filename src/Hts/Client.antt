-- ===== src/Hts/Client.antt =====
-- The parts of `HtsClient` (api/hts/client.py).
pub mod Reader
pub mod Rows
pub mod Update
pub mod Events
pub mod Listen
pub mod Sessions
pub mod Kill
pub mod Redact
