-- ===== src/Fluid.antt =====
-- include/fluid_lsm.h and src/fluid_lsm.cc: the listener that keeps a fluid LSM-tree over the levels of
-- a RocksDB database.
pub mod Structure
pub mod Compaction
pub mod Printing
mod Samples
mod Tests
