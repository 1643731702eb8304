-- ===== src/Protocol.antt =====
-- internal/protocol: the envelopes between the daemon and its clients, and their frames.
pub mod Envelope
pub mod Framing
pub mod RoundTrip
mod Tests
