-- ===== src/Deploy.antt =====
-- The operator's programs outside the package: the tunnel plan, the realm and the identity images.
pub mod Tunnel
pub mod Compose
pub mod Realm
