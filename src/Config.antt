-- ===== src/Config.antt =====
-- include/atp/config and the config_*.hpp files of src/runtime: configuration documents.
pub mod Node
pub mod Read
pub mod Path
pub mod Model
pub mod Validate
