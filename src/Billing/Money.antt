-- ===== src/Billing/Money.antt =====
-- internal/billing/domain/money.go: an amount in minor units of a currency.
use nvelope.Common.{Bool, ◌&&◌, String, text_eq, ◌==◌, if◌then◌else◌}
use nvelope.Common.Int64.{Int64, add64, mul64}
use nvelope.Common.Action.{ok, err}
use nvelope.Billing.Errors.{Result, currency_mismatch}

pub record Money : Type 0 where
  pub minor : Int64
  pub currency : String

abbrev pub zero_money : String → Money
zero_money currency = record { minor = 0; currency = currency }

unfoldable pub is_zero : Money → Bool
is_zero m = m.minor == 0

unfoldable pub add : Money → Money → Result Money
unfolding add64
add m other =
    if text_eq m.currency other.currency
    then ok (record { minor = add64 m.minor other.minor; currency = m.currency })
    else err currency_mismatch

unfoldable pub mul : Money → Int64 → Money
unfolding mul64
mul m qty = record { minor = mul64 m.minor qty; currency = m.currency }

unfoldable pub equal : Money → Money → Bool
equal m other = (m.minor == other.minor) && text_eq m.currency other.currency
