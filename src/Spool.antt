-- ===== src/Spool.antt =====
-- The worker's disk spool (services/vision/worker/spool.py): the names of its files, the
-- directory and its size limit, and the transmission of what it holds.
pub mod Names
pub mod Store
pub mod Flush
