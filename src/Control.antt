-- ===== src/Control.antt =====
-- src/tor/: the connection to the control port of a Tor process.
pub mod Error
pub mod Service
pub mod Response
pub mod Reader
pub mod Connection
pub mod Onion
pub mod Framing
pub mod Session
pub mod Ports
mod Tests
