-- ===== src/Cache.antt =====
-- watch/src/cache/watch_cache.h and watch_cache.c, one module for each part.
pub mod Record
pub mod Operations
pub mod Checksum
pub mod Validity
pub mod Restore
pub mod Storage
mod Tests
