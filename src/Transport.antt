-- ===== src/Transport.antt =====
-- watch/src/transport/transport.h and transport.c: the connection to the host. The calls of the
-- network, of the clock and of the random numbers are parameters.
pub mod Frames
pub mod Link
pub mod Sending
pub mod Connection
pub mod Kept
pub mod View
mod Tests
