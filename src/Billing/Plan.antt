-- ===== src/Billing/Plan.antt =====
-- internal/billing/domain/plan.go: the catalog of purchasable offerings.
use nvelope.Common.{
  ℕ, Bool, true, false, ◌&&◌, not, String, text_eq, is_empty, trim_space, ◌==◌, if◌then◌else◌,
}
use nvelope.Common.Int64.{Int64, lt64}
use nvelope.Common.Calendar.{Time, add_date}
use nvelope.Common.Action.{ok, err}
use nvelope.Billing.Errors.{Result, invalid_plan}
use nvelope.Billing.Money.{Money}

-- OverageMode and PlanStatus are strings in the code: `unknown` is any other string.
pub data OverageMode : Type 0 where
  block meter : OverageMode
  unknown : OverageMode

pub data PlanStatus : Type 0 where
  draft published archived : PlanStatus
  unknown_status : PlanStatus

pub record BillingPeriod : Type 0 where
  pub months : Int64
  pub days : Int64

unfoldable pub is_zero_period : BillingPeriod → Bool
is_zero_period p = p.months == 0 && p.days == 0

-- AdvanceFrom, with no bound on the dates (see Common/Calendar).
unfoldable pub advance_from : BillingPeriod → Time → Time
unfolding add_date
advance_from p t = add_date t p.months p.days

pub record Plan : Type 0 where
  pub id : ℕ
  pub code : String
  pub name : String
  pub price : Money
  pub billing_period : BillingPeriod
  pub included_sends : Int64
  pub overage_mode : OverageMode
  pub overage_price : Money
  pub status : PlanStatus

abbrev known_mode : OverageMode → Bool
known_mode block = true
known_mode meter = true
known_mode unknown = false

abbrev known_status : PlanStatus → Bool
known_status unknown_status = false
known_status _ = true

-- The id stays empty until the row is stored.
unfoldable pub new_plan :
    String → String → Money → BillingPeriod → Int64 → OverageMode → Money → PlanStatus → Result Plan
unfolding is_zero_period lt64
new_plan code name price period included_sends overage_mode overage_price status =
    let code' = trim_space code in
    let name' = trim_space name in
    if is_empty code'
    then err (invalid_plan "a plan code is required")
    else if is_empty name'
    then err (invalid_plan "a plan name is required")
    else if not (text_eq price.currency "RUB")
    then err (invalid_plan "Phase 5 plans must be priced in RUB")
    else if lt64 price.minor 0
    then err (invalid_plan "a plan price cannot be negative")
    else if is_zero_period period
    then err (invalid_plan "a plan needs a non-zero billing period")
    else if lt64 included_sends 0
    then err (invalid_plan "included sends cannot be negative")
    else if not (known_mode overage_mode)
    then err (invalid_plan "unknown overage mode")
    else if not (text_eq overage_price.currency price.currency)
    then err (invalid_plan "overage price must match the plan currency")
    else if not (known_status status)
    then err (invalid_plan "unknown plan status")
    else ok (record {
      id = 0;
      code = code';
      name = name';
      price = price;
      billing_period = period;
      included_sends = included_sends;
      overage_mode = overage_mode;
      overage_price = overage_price;
      status = status;
    })

unfoldable pub is_subscribable : Plan → Bool
is_subscribable p = elim p.status [ published ↦ true | _ ↦ false ]
