-- ===== src/Protocol.antt =====
-- include/internal/corex_protocol.h: the CRX9 wire format.
pub mod Words
pub mod Header
pub mod Socket
pub mod Hello
pub mod Take
pub mod RoundTrip
pub mod Capabilities
pub mod HelloRoundTrip
mod Tests
