-- ===== src/Mqttjson.antt =====
-- mqttjson/: the transport whose messages are JSON objects.
pub mod Messages
pub mod Server
pub mod Service
pub mod ClientCodec
pub mod Client
pub mod Conn
pub mod WholeCall
