-- ===== src/Gateway.antt =====
-- gateway.py: bounded, authenticated access to the centrally formatted energy reports.
pub mod Payload
pub mod Address
pub mod Config
pub mod Resolve
pub mod Response
pub mod Slots
pub mod Transport
