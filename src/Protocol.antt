-- ===== src/Protocol.antt =====
-- watch/src/protocol/watch_protocol.h and watch_protocol.c, one module for each part.
pub mod Messages
pub mod Utf8
pub mod Numbers
pub mod Decode
pub mod Framing
mod Tests
