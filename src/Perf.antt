-- ===== src/Perf.antt =====
-- The parser of perf records, kvmTest/src/platform/device/perf_parser.cpp, as its callers use it:
-- `quiet` is 1, so nothing is printed, and `validate` and `events_read` are NULL.
pub mod Words
pub mod Sample
pub mod Records
pub mod Buffer
pub mod Encode
pub mod Reads
pub mod Steps
pub mod Readings
pub mod SampleReads
pub mod StackReads
pub mod RecordReads
pub mod RoundTrip
pub mod Forward
pub mod Ends
mod Examples
