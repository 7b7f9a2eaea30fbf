-- ===== src/WorldManager.antt =====
-- packages/world-manager: the private worlds of a host.
pub mod Decimal
pub mod Leases
pub mod Instances
pub mod Capacity
