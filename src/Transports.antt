-- ===== src/Transports.antt =====
-- src/transports/: the two proxy transports, and the transport that is built of them.
pub mod Errors
pub mod Socks5
pub mod Tor
pub mod Create
pub mod Dial
pub mod Route
pub mod Listen
mod Tests
