-- ===== src/Coordinator.antt =====
-- coordinator.py: the spaces as the alarm panels show them, and what writes them.
pub mod Models
pub mod Delays
pub mod Overlays
pub mod Writes
pub mod Rows
pub mod Link
