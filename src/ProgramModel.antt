-- ===== src/ProgramModel.antt =====
-- packages/program-model: the canonical program tree of the block editor and the text editor.
pub mod Types
pub mod NodeId
pub mod Schema
pub mod Ids
pub mod WellFormed
pub mod Validate
pub mod Serialize
pub mod Starter
pub mod Migrate
