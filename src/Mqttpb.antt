-- ===== src/Mqttpb.antt =====
-- The package mqttpb: reverse RPC with protobuf messages over MQTT.
pub mod Messages
pub mod Codec
pub mod Server
pub mod ClientCodec
pub mod Conn
pub mod Client
pub mod Service
pub mod WholeCall
