-- ===== src/Lib.antt =====
-- A model of the Kognizance profiler, kvmTest/, and of the theorems that make its parts correct.
--
-- The program samples memory accesses with performance counters (devices), sets a hardware
-- watchpoint at a sampled address, and charges the trap that follows to the calling context of the
-- sample. A device's signal enters the platform's handler, which finds the device; a sample goes to
-- the tool's logic and then to the watchpoint library, a trap goes to the watchpoint library, which
-- finds the watchpoint and calls the logic back. An agent gives devices to a guest's virtual CPUs.
--
-- Prelude: tests, lists, integers and maps over the native numbers.
-- Event: kvmTest/includes/platform/context.hpp.
-- Platform: World is the state of kvmTest/includes/platform/platform.hpp with the kernel and the
--   hypervisor as the record Host, whose answers may depend on all earlier calls, and the monad M of
--   code that may end the process. Agent is kvmTest/src/agent/kvmAgent/myagent.cpp, Devices is
--   kvmTest/src/platform/device/device.cpp with the device tables, Attributes is registerThisDevice
--   of ebsDevice.cpp, pebsDevice.cpp and bpDevice.cpp there, Sessions is the keys and the
--   signal handler of kvmTest/src/platform/platform.cpp, Dispatch the way of a completed event to
--   the tool (kvmTest/src/agent/agent.cpp). Ensures, Frame, Removed, SessionRemoved, Registered,
--   Signals and Places hold laws.
-- Watch: kvmTest/src/tools/witchTool/watchpoint-lib/src/watchpoint.cpp. Address has the macros,
--   Slots the state of a thread, Victim GetVictim, Arm and Thread the setting of watchpoints,
--   Trigger OnWatchPoint. A slot array is the list of its first maxWP entries; loops over it are
--   recursions on that list. Bounds, Reservoir, Rearm, Disjoint, Subscribe,
--   Trapped, Accepted and Installed hold laws.
-- Witch: kvmTest/includes/tools/witchTool/witchLogic/WitchLogic.hpp (Tree) and the trap callbacks of
--   deadStore.cpp, falsesharing.cpp (Stores), loadSpy.cpp (Loads), redSpy.cpp and dupSpy.cpp
--   (Writes), under kvmTest/src/tools/witchTool/witchLogic/. Logics chooses between them and runs
--   a sequence of samples and traps. Report is the walk that sums up the tree and the
--   one that prints it. Laws, Ledger, Accounts, Charges, LoadCharges, WriteCharges, Rooted,
--   Consistent, Reachable and Sums hold laws.
-- Decoder: kvmTest/src/agent/nativeAgent/decoder.cpp. Search holds laws.
-- Ring: kvmTest/src/tools/witchTool/watchpoint-lib/src/watchpoint_mmap.cpp. Reads holds laws.
-- Perf: kvmTest/src/platform/device/perf_parser.cpp. Words has the reads at an offset, Sample the
--   fields of a sample, Records the other records, Buffer perf_mmap_read. Encode writes records as
--   the kernel does for sample_id_all 0. Reads, Steps, Readings, StackReads, SampleReads, RecordReads, RoundTrip, Forward and Ends
--   hold laws.
-- AgentApi: what the tool asks of an agent, kvmTest/includes/agent/agent.hpp.
-- Samples: mytool.cpp of samplePEBSBPTool, samplePEBSTool, sampleEBSTool and sampleTool in
--   kvmTest/src/tools. Watched holds laws.
-- Registers: the callback for registers in decoder.cpp of kvmTest/src/agent/nativeAgent and of
--   kvmTest/src/agent/kvmAgent.
-- Native: kvmTest/src/agent/nativeAgent/myagent.cpp and symbol.cpp. Signal is dev_signal_handler of
--   device.cpp with this agent. Symbols and Backtraces hold laws.
-- Guest: the rest of kvmTest/src/agent/kvmAgent. Memory has the reading of the guest (myagent.cpp),
--   Reading the decoder (decoder.cpp), Symbols the table of symbols (symbol.cpp), Interface the calls
--   of the guest's driver (kvminterface.cpp), among them the report of an event, which goes by
--   Platform.Dispatch to Tool. Search, Floor, Loaded, Frames, Reports and Sound hold laws.
-- Python: kvmTest/src/agent/pythonAgent. Bytecode is pyBytecodeIterator.cpp, Stack is
--   pyagent_stack_unwind.cpp. Encode writes code as the interpreter does. Reads and Walks hold
--   laws.
-- Tool: kvmTest/src/tools/witchTool/mytool.cpp. Fix is fixIP with GetPatchedIP, Handlers the
--   callbacks for sessions and events, which call Witch and Watch. Judged, Kept, Sound, Signal,
--   Refused and Exit hold laws.
--
-- Parameters stand for the kernel and the hypervisor (Host), the C library's random numbers
-- (Random), the arithmetic on doubles and floats (Random, Floats), the XED decoder (Xed, ByteXed), the
-- guest's memory and registers (Guest), the interpreter's frames (PyFrame), and the frames of
-- libunwind and symbols of libbfd (lists). The macros of the build are arguments. There are five
-- fuels. The search for the previous instruction has two more rounds than there are
-- bytes between the function's start and the instruction; as each round moves by at least one
-- byte, they are enough. The loop of the perf parser has one round more than an eighth of the bytes
-- read; as every record has a header of eight bytes, they are enough where no field moves the
-- offset back. The loop over a sample's stack counts an int by fours and has more
-- rounds than an int has multiples of four. The KVM agent's search has the native one's rounds. The search in the bytecode has one
-- round more than the code has bytes; as each instruction has at least one, they are enough.
-- Addresses and counters wrap at 2^64; session and event keys are counted without
-- wrap-around.
--
-- Left out: locks (each operation holds its lock for its whole body), printing, what a read of an
-- event that OnWatchPoint has deleted finds, the KVM agent's dump of the debug store, the Python
-- agent's search for the thread's state among the interpreter's objects, and the copy of libmonitor.
pub mod Prelude
pub mod Event
pub mod Platform
pub mod Watch
pub mod Witch
pub mod Decoder
pub mod Ring
pub mod Perf
pub mod AgentApi
pub mod Native
pub mod Tool
pub mod Registers
pub mod Guest
pub mod Python
pub mod Samples
