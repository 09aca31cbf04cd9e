-- ===== src/Billing.antt =====
-- The billing context (internal/billing).
pub mod Errors
pub mod Money
pub mod Dunning
pub mod Plan
pub mod Subscription
pub mod Invoice
pub mod Payment
pub mod Usage
pub mod Store
pub mod Subscriptions
pub mod Invoices
pub mod Charge
pub mod Commands
pub mod Backing
pub mod Runs
pub mod Metering
pub mod Quota
pub mod Sweep
mod Tests
