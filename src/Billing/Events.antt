-- ===== src/Billing/Events.antt =====
-- What Stripe reports about subscriptions: `handleWebhookEvent`.
use pexlo_portal.Prelude.{
  ℕ, Bool, false, Option, none, some, ◌&&◌, if◌then◌else◌, find_first, update_where, is_some,
  same_option, has_key,
}
use pexlo_portal.Billing.State.{
  Slug, free, SubscriptionPlan, Subscription, SubscriptionStatus, active, past_due, Store,
  subscription_id, plan_named, of_org,
}

pub record CheckoutSession : Type 0 where
  pub organization_id : Option ℕ
  pub plan_slug : Option Slug
  pub subscription : Option ℕ
  pub payment_intent : Option ℕ

pub record StripeSubscription : Type 0 where
  pub customer : ℕ
  pub status : SubscriptionStatus
  pub cancel_at_period_end : Bool
  pub period_start : Option ℕ
  pub period_end : Option ℕ

pub data Event : Type 0 where
  checkout_completed : CheckoutSession → Event
  subscription_updated subscription_deleted : StripeSubscription → Event
  payment_failed invoice_paid : Option ℕ → Event
  other : Event

abbrev pub of_customer : ℕ → Subscription → Bool
of_customer c x = same_option x.stripe_customer_id (some c)

-- `findUnique`, and then `update` of the row that was found.
unfoldable pub update_found : (Subscription → Bool) → (Subscription → Subscription) → Store → Store
update_found q f s = elim (find_first q s.subscriptions) [
  | none ↦ s
  | some r ↦ record s {
    subscriptions = update_where (has_key subscription_id r.id) f s.subscriptions;
  }
]

abbrev pub activated : SubscriptionPlan → CheckoutSession → Subscription → Subscription
activated plan session x =
    if plan.is_recurring && is_some session.subscription
    then record x {
      plan_id = plan.id;
      status = active;
      stripe_subscription_id = session.subscription;
    }
    else record x {
      plan_id = plan.id;
      status = active;
      stripe_payment_intent_id = session.payment_intent;
    }

-- An organisation without a subscription makes the update fail, which changes nothing here.
unfoldable pub handle_checkout_completed : CheckoutSession → Store → Store
unfolding update_found
handle_checkout_completed session s = elim session.organization_id [
  | none ↦ s
  | some org ↦ elim session.plan_slug [
    | none ↦ s
    | some slug ↦ elim (plan_named slug s) [
      | none ↦ s
      | some plan ↦ update_found (of_org org) (activated plan session) s
    ]
  ]
]

abbrev pub over : Option ℕ → Option ℕ → Option ℕ
over none old = old
over (some n) old = some n

abbrev pub followed : StripeSubscription → Subscription → Subscription
followed sub x = record x {
  status = sub.status;
  cancel_at_period_end = sub.cancel_at_period_end;
  current_period_start = over sub.period_start x.current_period_start;
  current_period_end = over sub.period_end x.current_period_end;
}

unfoldable pub handle_subscription_updated : StripeSubscription → Store → Store
unfolding update_found
handle_subscription_updated sub s = update_found (of_customer sub.customer) (followed sub) s

abbrev pub reverted : SubscriptionPlan → Subscription → Subscription
reverted plan x = record x {
  plan_id = plan.id;
  status = active;
  stripe_subscription_id = none;
  cancel_at_period_end = false;
  current_period_start = none;
  current_period_end = none;
}

unfoldable pub handle_subscription_deleted : StripeSubscription → Store → Store
unfolding update_found
handle_subscription_deleted sub s = elim (plan_named free s) [
  | none ↦ s
  | some plan ↦ update_found (of_customer sub.customer) (reverted plan) s
]

abbrev pub with_status : SubscriptionStatus → Subscription → Subscription
with_status st x = record x { status = st }

unfoldable pub handle_payment_failed : Option ℕ → Store → Store
unfolding update_found
handle_payment_failed none s = s
handle_payment_failed (some c) s = update_found (of_customer c) (with_status past_due) s

unfoldable pub handle_invoice_paid : Option ℕ → Store → Store
unfolding update_found
handle_invoice_paid none s = s
handle_invoice_paid (some c) s = update_found (of_customer c) (with_status active) s

unfoldable pub handle_webhook_event : Event → Store → Store
unfolding handle_checkout_completed handle_subscription_updated handle_subscription_deleted
    handle_payment_failed handle_invoice_paid
handle_webhook_event (checkout_completed session) s = handle_checkout_completed session s
handle_webhook_event (subscription_updated sub) s = handle_subscription_updated sub s
handle_webhook_event (subscription_deleted sub) s = handle_subscription_deleted sub s
handle_webhook_event (payment_failed c) s = handle_payment_failed c s
handle_webhook_event (invoice_paid c) s = handle_invoice_paid c s
handle_webhook_event other s = s
