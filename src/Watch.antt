-- ===== src/Watch.antt =====
-- The watchpoint library, kvmTest/src/tools/witchTool/watchpoint-lib.
pub mod Address
pub mod Slots
pub mod Victim
pub mod Reservoir
pub mod Arm
pub mod Rearm
pub mod Thread
pub mod Trigger
pub mod Bounds
pub mod Disjoint
pub mod Subscribe
pub mod Accepted
pub mod Trapped
pub mod Installed
pub mod Cases
mod Examples
