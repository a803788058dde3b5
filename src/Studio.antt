-- ===== src/Studio.antt =====
-- src/studio/include/atp/studio: the project that the editor works on.
pub mod NodeRef
pub mod Lookup
pub mod Cascade
pub mod Project
pub mod Threads
