-- ===== src/Store.antt =====
-- tenant_store.py: encrypted storage of household connections, login flows and portal sessions.
pub mod Tables
pub mod Connections
pub mod Access
pub mod Flows
pub mod Sessions
pub mod Isolation
pub mod Capacity
pub mod Kept
pub mod Opening
pub mod History
