-- ===== src/Io.antt =====
-- include/atp/io: the ports that modules read from and write to.
pub mod Input
pub mod Queue
pub mod Output
