-- ===== src/Billing/Plans.antt =====
-- Plans: initialisation, checkout, seats, and the guard of the limits.
use pexlo_portal.Prelude.{
  ℕ, ◌-◌, Bool, false, Option, none, some, [], ◌∷◌, ◌++◌, ◌==◌, ◌&&◌, if◌then◌else◌, find_first,
  update_where, count, any, is_some, leb, has_key,
}
use pexlo_portal.Service.{
  Action, pure, gets, throw_if, or_throw, modify, not_found, forbidden, bad_request,
  unique_violation, ◌>>=◌, ◌>>◌,
}
use pexlo_portal.Billing.State.{
  Slug, free, lifetime, SubscriptionPlan, Subscription, active, Store, Usage, same_slug, is_active,
  subscription_id, plan_named, plan_of, of_org, get_usage,
}

-- Whether billing is enabled, the default plan, and the customer and the sessions that Stripe makes; `customer` is asked once for an organisation.
pub record BillingConfig : Type 0 where
  pub enabled : Bool
  pub has_key : Bool
  pub default_slug : Slug
  pub customer : ℕ → Option ℕ
  pub session : (customer price : ℕ) → (recurring : Bool) → ℕ
  pub portal : ℕ → ℕ

abbrev pub new_subscription : ℕ → SubscriptionPlan → Option ℕ → ℕ → Subscription
new_subscription org plan customer new_id = record {
  id = new_id;
  organization_id = org;
  plan_id = plan.id;
  stripe_customer_id = customer;
  stripe_subscription_id = none;
  stripe_payment_intent_id = none;
  status = active;
  current_period_start = none;
  current_period_end = none;
  cancel_at_period_end = false;
}

-- `subscription.create`, under the unique index on the organisation.
unfoldable pub insert_subscription : Subscription → Action Store (Unit {0})
insert_subscription x = do
  taken ← gets (λ s. any (of_org x.organization_id) s.subscriptions)
  throw_if taken unique_violation
  modify (λ s. record s { subscriptions = s.subscriptions ++ x ∷ [] })

module _ (lib : BillingConfig) where
  -- A default plan that is missing is passed over.
  unfoldable pub subscribe : Option SubscriptionPlan → ℕ → ℕ → Action Store (Unit {0})
  unfolding insert_subscription
  subscribe none org new_id = pure tt
  subscribe (some plan) org new_id =
      insert_subscription
        (new_subscription org plan (if lib.has_key then lib.customer org else none) new_id)

  unfoldable pub initialize_free_plan : ℕ → ℕ → Action Store (Unit {0})
  unfolding subscribe
  initialize_free_plan org new_id = do
    found ← gets (plan_named lib.default_slug)
    if lib.enabled then subscribe found org new_id else pure tt

  -- A subscription that is missing is made when billing is enabled.
  unfoldable pub get_subscription : ℕ → ℕ → Action Store (Option Subscription)
  unfolding initialize_free_plan
  get_subscription org new_id = do
    found ← gets (λ s. find_first (of_org org) s.subscriptions)
    if is_some found then pure tt else initialize_free_plan org new_id
    gets (λ s. find_first (of_org org) s.subscriptions)

  abbrev pub set_customer : ℕ → Subscription → Subscription
  set_customer c x = record x { stripe_customer_id = some c }

  unfoldable pub ensure_stripe_customer : Subscription → Action Store (Option ℕ)
  ensure_stripe_customer x = elim x.stripe_customer_id [
    | some c ↦ pure (some c)
    | none ↦ elim (lib.customer x.organization_id) [
      | none ↦ pure none
      | some c ↦ do
        modify (λ s. record s {
          subscriptions =
              update_where (has_key subscription_id x.id) (set_customer c) s.subscriptions;
        })
        pure (some c)
    ]
  ]

  -- The active subscriptions to a plan of this name.
  abbrev pub seats : Slug → Store → ℕ
  seats slug s =
      count
        (λ (x : Subscription).
          is_active x.status
          && elim (plan_of x s) [ none ↦ false | some p ↦ same_slug p.slug slug ])
        s.subscriptions

  -- `maxSeats > 0 && currentSeats >= maxSeats`
  abbrev pub no_seat : SubscriptionPlan → ℕ → Bool
  no_seat plan taken = elim plan.max_seats [
    | none ↦ false
    | some n ↦ if n == 0 then false else leb n taken
  ]

  unfoldable pub create_checkout_session : ℕ → Slug → ℕ → Action Store ℕ
  unfolding get_subscription ensure_stripe_customer
  create_checkout_session org slug new_id = do
    found ← gets (plan_named slug)
    plan ← or_throw found not_found
    throw_if (same_slug plan.slug free) bad_request
    taken ← gets (seats slug)
    throw_if (no_seat plan taken) bad_request
    there ← get_subscription org new_id
    subscription ← or_throw there not_found
    ensured ← ensure_stripe_customer subscription
    customer ← or_throw ensured bad_request
    price ← or_throw plan.stripe_price_id bad_request
    pure (lib.session customer price plan.is_recurring)

  unfoldable pub create_portal_session : ℕ → ℕ → Action Store ℕ
  unfolding get_subscription ensure_stripe_customer
  create_portal_session org new_id = do
    there ← get_subscription org new_id
    subscription ← or_throw there bad_request
    ensured ← ensure_stripe_customer subscription
    customer ← or_throw ensured bad_request
    pure (lib.portal customer)

  -- `Math.max(0, maxSeats - taken)`: the subtraction stops at 0.
  unfoldable pub get_lifetime_seats_remaining : Store → Option ℕ
  get_lifetime_seats_remaining s = elim (plan_named lifetime s) [
    | none ↦ none
    | some plan ↦ elim plan.max_seats [
      | none ↦ none
      | some n ↦ some (
          n
          - count (λ (x : Subscription). x.plan_id == plan.id && is_active x.status)
              s.subscriptions)
    ]
  ]

pub data Resource : Type 0 where
  projects storage members clients : Resource

abbrev pub limit : Resource → SubscriptionPlan → Option ℕ
limit projects p = p.max_projects
limit storage p = p.max_storage_mb
limit members p = p.max_members
limit clients p = p.max_clients

abbrev pub current : Resource → Usage → ℕ
current projects u = u.projects
current storage u = u.storage_mb
current members u = u.members
current clients u = u.clients

-- An organisation without a subscription, or without a limit, passes.
unfoldable pub check_limit : BillingConfig → Resource → ℕ → ℕ → Action Store (Unit {0})
unfolding get_subscription
check_limit lib resource org new_id = do
  found ← get_subscription lib org new_id
  usage ← gets (get_usage org)
  plan ← gets (λ s. elim found [ none ↦ none | some x ↦ plan_of x s ])
  elim plan [
    | none ↦ pure tt
    | some p ↦ elim (limit resource p) [
      | none ↦ pure tt
      | some n ↦ throw_if (leb n (current resource usage)) forbidden
    ]
  ]

-- `PlanGuard.canActivate`, of a handler that names a resource.
unfoldable pub can_activate : BillingConfig → Resource → Option ℕ → ℕ → Action Store (Unit {0})
unfolding check_limit
can_activate lib resource none new_id = pure tt
can_activate lib resource (some org) new_id =
    if lib.enabled then check_limit lib resource org new_id else pure tt
