-- ===== src/Perf/RoundTrip.antt =====
-- perf_mmap_read on a ring that holds encoded records,
-- kvmTest/src/platform/device/perf_parser.cpp.
use kognizance_tool.Prelude.{List}
use kognizance_tool.Event.{Event}
use kognizance_tool.Ring.{Ring}
