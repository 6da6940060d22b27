-- ===== src/Sync.antt =====
-- watch/src/state/watch_sync.h and watch_sync.c, one module for each part.
pub mod Values
pub mod Snapshots
pub mod Mutations
pub mod Buffer
pub mod Handle
mod Tests
