-- ===== src/Control/Service.antt =====
-- `OnionService` of src/tor/control_connection.rs.
use trithemius_p2p.Base.{ℕ, Text}
use trithemius_p2p.Util.{Multiaddr}

pub record OnionService : Type 0 where
  pub virt_port : ℕ
  pub listen_address : Multiaddr
  pub service_id : Text
  pub address : Multiaddr
