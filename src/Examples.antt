-- ===== src/Examples.antt =====
-- The theorems at concrete inputs, and runs of the operations.
mod Wire
mod Values
mod Updates
mod Loops
mod Sends
mod Panels
mod Gateway
mod Links
