-- ===== src/Witch.antt =====
-- The witch tool's analysis: the calling context tree and the logics DeadStore, FalseSharing,
-- LoadSpy, RedSpy and DupSpy of kvmTest/src/tools/witchTool/witchLogic.
pub mod Tree
pub mod Totals
pub mod Stores
pub mod Loads
pub mod Writes
pub mod WriteCharges
pub mod Laws
pub mod Ledger
pub mod Accounts
pub mod Charges
pub mod LoadCharges
pub mod Logics
pub mod Report
pub mod Sums
pub mod Rooted
pub mod Consistent
pub mod Reachable
pub mod Cases
mod Examples
mod SpyExamples
mod LedgerExamples
mod ReportExamples
