-- ===== src/Tests.antt =====
-- The theorems at concrete data.
mod Wire
mod Calls
mod Packages
mod Messages
mod Adapters
mod Objects
mod Connections
mod Service
mod Topics
mod Telemetries
mod Echoes
mod JsonCalls
mod Setups
mod WholeCalls
mod Interfaces
mod Maths
mod JsonWholeCalls
