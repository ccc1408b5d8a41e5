-- ===== src/Tool.antt =====
-- The witch tool's driver, kvmTest/src/tools/witchTool/mytool.cpp: it feeds the logic and subscribes
-- watchpoints.
pub mod Fix
pub mod Handlers
pub mod Judged
pub mod Kept
pub mod Sound
pub mod Signal
pub mod Refused
pub mod Exit
pub mod Cases
mod Examples
mod SignalExamples
