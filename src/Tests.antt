-- ===== src/Tests.antt =====
-- Concrete runs of the models, one for each theorem that has hypotheses.
pub mod Data
pub mod Gateway
pub mod Voice
pub mod Households
pub mod History
pub mod Lifecycle
pub mod Realm
pub mod Deploy
pub mod Portal
