-- ===== src/Guest.antt =====
-- The KVM agent beside its breakpoint slots: kvmTest/src/agent/kvmAgent/decoder.cpp, symbol.cpp,
-- kvminterface.cpp, and the reading of the guest in myagent.cpp. What the hypervisor answers is the
-- record Guest.
pub mod Memory
pub mod Reading
pub mod Search
pub mod Symbols
pub mod Floor
pub mod Loaded
pub mod Interface
pub mod Frames
pub mod Reports
pub mod Sound
mod Examples
