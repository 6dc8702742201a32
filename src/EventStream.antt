-- ===== src/EventStream.antt =====
-- packages/eventstream: event streams over a transport that may drop. A handler is a number, since a
-- set of functions tells them apart by identity.
pub mod Subscribers
pub mod Emitter
pub mod WebSocket
pub mod Sse
mod Tests
