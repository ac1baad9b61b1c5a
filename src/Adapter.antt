-- ===== src/Adapter.antt =====
-- mqttadapter/mqtt.go: the adapter between the transports and the MQTT client.
pub mod Callbacks
pub mod Client
pub mod Connecting
pub mod Interface
pub mod Options
