-- ===== src/Handler.antt =====
-- lambda_handler.py: validation of the Alexa event, and the handling of each kind of request.
pub mod Event
pub mod Intents
pub mod Text
pub mod Quiet
pub mod Energy
