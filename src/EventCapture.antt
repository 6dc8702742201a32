-- ===== src/EventCapture.antt =====
-- packages/eventcapture: capture of events off the hot path.
pub mod RingBuffer
pub mod Recorder
pub mod Aggregator
mod Tests
