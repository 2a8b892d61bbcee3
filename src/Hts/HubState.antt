-- ===== src/Hts/HubState.antt =====
-- api/hts/hub_state.py: decoding of single values, and the merge of a hub row into the known state.
pub mod Keys
pub mod Values
pub mod Network
pub mod Readings
