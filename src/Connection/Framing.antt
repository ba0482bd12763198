-- ===== src/Connection/Framing.antt =====
-- What `send` writes for a packet, `read` takes apart again.
pub mod Plain
pub mod Packed
pub mod Received
pub mod Sealed
pub mod RoundTrip
