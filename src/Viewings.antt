-- ===== src/Viewings.antt =====
-- src/application-viewings: the rules of a viewing appointment.
pub mod Policy
pub mod Schedule
pub mod Text
mod Tests
