-- ===== src/Platform.antt =====
-- The platform layer: kvmTest/src/platform and kvmTest/includes/platform.
pub mod World
pub mod Agent
pub mod Devices
pub mod Sessions
pub mod Attributes
pub mod Dispatch
pub mod Registered
pub mod Ensures
pub mod Frame
pub mod Removed
pub mod SessionRemoved
pub mod Signals
pub mod Places
mod Examples
