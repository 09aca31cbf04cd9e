-- ===== src/Billing/Subscriptions.antt =====
-- internal/billing/adapters/subscriptions_pg.go and plans_pg.go: the stored subscriptions and the
-- catalog. The rows are one tenant's, so that no statement names the tenant.
use nvelope.Common.{
  ℕ, ◌+◌, Bool, not, ◌&&◌, ◌∷◌, Option, none, some, ◌==◌, if◌then◌else◌, select_first, update_where,
  exists_where,
}
use nvelope.Common.Action.{ok, err}
use nvelope.Billing.Errors.{Result, plan_not_found, subscription_exists, no_subscription}
use nvelope.Billing.Plan.{Plan}
use nvelope.Billing.Subscription.{Subscription, is_canceled}
use nvelope.Billing.Store.{Billing, with_tenant}

-- WHERE state <> 'canceled'
abbrev pub not_canceled : Subscription → Bool
not_canceled s = not (is_canceled s.state)

abbrev pub has_id : ℕ → Subscription → Bool
has_id id s = s.id == id

-- The columns that `Update` writes.
abbrev pub write_back : Subscription → Subscription → Subscription
write_back row updated = record row {
  state = updated.state;
  current_period_start = updated.current_period_start;
  current_period_end = updated.current_period_end;
  cancel_at_period_end = updated.cancel_at_period_end;
  canceled_at = updated.canceled_at;
}

module _ {G : Type 0} where
  abbrev pub found_plan : Option Plan → Billing G Plan
  found_plan none w = (err plan_not_found, w)
  found_plan (some p) w = (ok p, w)

  -- The catalog is read through the pool, which the database may fail likewise.
  unfoldable pub get_plan : ℕ → Billing G Plan
  unfolding with_tenant
  get_plan id = with_tenant λ w. found_plan (select_first (λ p. p.id == id) w.plans) w

  -- The partial unique index admits one row that is not canceled.
  unfoldable pub add_subscription : Subscription → Billing G ℕ
  unfolding with_tenant
  add_subscription s = with_tenant λ w.
      if exists_where not_canceled w.subscriptions && not_canceled s
      then (err subscription_exists, w)
      else (
        ok w.fresh,
        record w {
          subscriptions = record s { id = w.fresh } ∷ w.subscriptions;
          fresh = w.fresh + 1;
        },
      )

  abbrev pub found_subscription : Option Subscription → Billing G Subscription
  found_subscription none w = (err no_subscription, w)
  found_subscription (some s) w = (ok s, w)

  unfoldable pub get_subscription : ℕ → Billing G Subscription
  unfolding with_tenant
  get_subscription id =
      with_tenant λ w. found_subscription (select_first (has_id id) w.subscriptions) w

  -- The one subscription that is not canceled.
  unfoldable pub current_subscription : Billing G (Option Subscription)
  unfolding with_tenant
  current_subscription = with_tenant λ w. (ok (select_first not_canceled w.subscriptions), w)

  abbrev pub save_subscription : ℕ → Result Subscription → Billing G Unit
  save_subscription id (err e) w = (err e, w)
  save_subscription id (ok updated) w = (
    ok tt,
    record w {
      subscriptions = update_where (has_id id) (λ row. write_back row updated) w.subscriptions;
    },
  )

  abbrev pub change_subscription :
      ℕ → (Subscription → Result Subscription) → Option Subscription → Billing G Unit
  change_subscription id fn none w = (err no_subscription, w)
  change_subscription id fn (some s) w = save_subscription id (fn s) w

  -- Loads, runs `fn` and saves, in one transaction.
  unfoldable pub update_subscription : ℕ → (Subscription → Result Subscription) → Billing G Unit
  unfolding with_tenant
  update_subscription id fn =
      with_tenant λ w. change_subscription id fn (select_first (has_id id) w.subscriptions) w
