-- ===== src/Runtime.antt =====
-- src/runtime/include/atp/runtime: the composite that holds the modules, and the runner.
pub mod Tree
pub mod Cascade
pub mod Iterate
pub mod Runner
pub mod LogRing
pub mod Compose
pub mod CommandQueue
