-- ===== src/Tests.antt =====
-- The theorems at concrete inputs.
mod Programs
mod Runtimes
mod Envelopes
mod Leases
mod ControlPlane
mod Sessions
