-- ===== src/Cache.antt =====
-- block_cache.h and block_cache.cpp: the in-memory cache in front of the trees on disk.
pub mod State
pub mod Load
pub mod Files
pub mod Write
pub mod Flush
pub mod Invariant
