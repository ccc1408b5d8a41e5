-- ===== src/Python.antt =====
-- The Python agent's walk over an interpreter's stack: kvmTest/src/agent/pythonAgent.
pub mod Bytecode
pub mod Stack
pub mod Encode
pub mod Reads
pub mod Walks
mod Examples
