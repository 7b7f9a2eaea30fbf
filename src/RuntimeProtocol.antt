-- ===== src/RuntimeProtocol.antt =====
-- packages/runtime-protocol: the instruction graph, the runtime that executes it, and the envelopes
-- that carry it to the host.
pub mod InstructionGraph
pub mod Address
pub mod Scopes
pub mod Execution
pub mod Runtime
pub mod Envelope
