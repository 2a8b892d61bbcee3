-- ===== src/Hts.antt =====
-- The binary HTS protocol (custom_components/aegis_ajax/api/hts).
pub mod Crc
pub mod Protocol
pub mod Messages
pub mod Crypto
pub mod Channel
pub mod Auth
pub mod HubEvents
pub mod HubState
pub mod Keyfobs
pub mod Client
