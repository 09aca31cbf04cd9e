-- ===== src/Billing/Errors.antt =====
-- The billing context's errors (internal/billing/domain/errors.go). A text argument is the message
-- of `WithMessage`; a refused transition's message, which only repeats the state, is left out.
-- `infrastructure` stands for an error of the database, a broken unique constraint included.
use nvelope.Common.{String}
use nvelope.Common.Action

pub data Error : Type 0 where
  plan_not_found plan_not_published subscription_exists no_subscription : Error
  invoice_not_found invoice_not_settleable payment_failed : Error
  invalid_subscription_transition : Error
  currency_mismatch : Error
  invalid_plan invalid_invoice : String → Error
  infrastructure : Error

abbrev pub Result : Type 0 → Type 0
Result A = Action.Result Error A
