-- ===== src/Billing/Tests.antt =====
-- A concrete subscription: a plan for life, and the end of the subscription before it.
use pexlo_portal.Prelude.{ℕ, ◌≡◌, refl, true, false, none, some, [], ◌∷◌}
use pexlo_portal.Billing.State.{Slug, SubscriptionPlan, Subscription, SubscriptionStatus, Store}
use pexlo_portal.Billing.Events.{
  CheckoutSession, StripeSubscription, Event, handle_webhook_event, handle_checkout_completed,
  handle_subscription_deleted, update_found,
}
use pexlo_portal.Billing.Repeated.{handle_webhook_event-again}

abbrev plan : ℕ → Slug → SubscriptionPlan
plan id slug = record {
  id = id;
  slug = slug;
  stripe_price_id = some 500;
  max_projects = some 3;
  max_storage_mb = none;
  max_members = none;
  max_clients = none;
  max_seats = none;
  is_recurring = false;
}

abbrev monthly : Subscription
monthly = record {
  id = 1;
  organization_id = 7;
  plan_id = 30;
  stripe_customer_id = some 90;
  stripe_subscription_id = some 91;
  stripe_payment_intent_id = none;
  status = SubscriptionStatus.active;
  current_period_start = none;
  current_period_end = none;
  cancel_at_period_end = true;
}

abbrev billed : Store
billed = record {
  plans = plan 10 Slug.free ∷ plan 20 Slug.lifetime ∷ [];
  subscriptions = monthly ∷ [];
  projects = [];
  files = [];
  members = [];
}

abbrev for_life : CheckoutSession
for_life = record {
  organization_id = some 7;
  plan_slug = some Slug.lifetime;
  subscription = none;
  payment_intent = some 92;
}

abbrev ended : StripeSubscription
ended = record {
  customer = 90;
  status = SubscriptionStatus.canceled;
  cancel_at_period_end = true;
  period_start = none;
  period_end = none;
}

handle_webhook_event-again_example :
    handle_webhook_event
      (Event.checkout_completed for_life)
      (handle_webhook_event (Event.checkout_completed for_life) billed)
    ≡ handle_webhook_event (Event.checkout_completed for_life) billed
handle_webhook_event-again_example =
    handle_webhook_event-again (Event.checkout_completed for_life) billed

-- The end of the monthly subscription takes the plan for life away.
lost_test :
    (handle_subscription_deleted ended (handle_checkout_completed for_life billed)).subscriptions
    ≡ record monthly {
      plan_id = 10;
      stripe_subscription_id = none;
      stripe_payment_intent_id = some 92;
      cancel_at_period_end = false;
    }
      ∷ []
unfolding handle_subscription_deleted handle_checkout_completed update_found
lost_test = refl
