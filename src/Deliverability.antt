-- ===== src/Deliverability.antt =====
-- internal/deliverability: delivery feedback from the mail provider and the suppression list that
-- it drives.
pub mod Events
pub mod Store
pub mod Commands
mod Tests
