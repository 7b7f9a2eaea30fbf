-- ===== src/ControlPlane.antt =====
-- packages/control-plane: classes, campers, their programs and the retention of their data.
pub mod Dates
pub mod Texts
pub mod Store
pub mod Action
pub mod Access
pub mod Organizations
pub mod Campers
pub mod Programs
pub mod Classroom
pub mod Roster
pub mod Conditions
pub mod Authorized
pub mod Codes
pub mod Due
pub mod Mutations
pub mod Denied
pub mod Retry
pub mod Ensures
pub mod Erased
pub mod Purged
pub mod Purgeable
pub mod Limits
pub mod Retention
pub mod Operations
pub mod Step
