-- ===== src/Billing/Repeated.antt =====
-- Stripe delivers an event more than once.
use pexlo_portal.Prelude.{
  ℕ, ◌≡◌, ◌∙◌, ap, refl, sym, Bool, true, Option, none, some, List, [], ◌∷◌, ◌==◌, ◌&&◌, Bool-cases,
  Option-cases, inl, inr, find_first, find_first-update, update_where, has_key, is_some,
}
use pexlo_portal.Billing.State.{
  Slug, free, SubscriptionPlan, Subscription, active, past_due, Store, subscription_id, plan_named,
  of_org,
}
use pexlo_portal.Billing.Events.{
  CheckoutSession, StripeSubscription, Event, checkout_completed, subscription_updated,
  subscription_deleted, payment_failed, invoice_paid, other, of_customer, update_found, activated,
  handle_checkout_completed, followed, over, handle_subscription_updated, reverted,
  handle_subscription_deleted, with_status, handle_payment_failed, handle_invoice_paid,
  handle_webhook_event,
}

module _ (q : Subscription → Bool) (f : Subscription → Subscription)
    (same_q : (x : Subscription) → q (f x) ≡ q x) (same_id : (x : Subscription) → (f x).id ≡ x.id)
    (twice : (x : Subscription) → f (f x) ≡ f x) where
  update-again :
      (i : ℕ) (xs : List Subscription)
      → update_where (has_key subscription_id i) f (update_where (has_key subscription_id i) f xs)
        ≡ update_where (has_key subscription_id i) f xs
  update-again i [] = refl
  update-again i (x ∷ xs) = elim (Bool-cases (x.id == i)) [
    | inl e ↦
        let hit : ((f x).id == i) ≡ true = ap (λ k. k == i) (same_id x) ∙ e in
        let rest =
          update_where (has_key subscription_id i) f
            (update_where (has_key subscription_id i) f xs) in
        rw (e, hit) (ap (λ v. v ∷ rest) (twice x) ∙ ap (λ v. f x ∷ v) (update-again i xs))
    | inr e ↦ rw (e, e) (ap (λ v. x ∷ v) (update-again i xs))
  ]

  found_again :
      (r : Subscription) (s : Store)
      → find_first q s.subscriptions ≡ some r
      → (z : Subscription) × (z.id ≡ r.id)
        × (find_first q (update_where (has_key subscription_id r.id) f s.subscriptions) ≡ some z)
  found_again r s e =
      let seen = find_first-update q (has_key subscription_id r.id) f s.subscriptions same_q in
      elim (Bool-cases (r.id == r.id)) [
        | inl y ↦ (f r, same_id r, seen ∙ (rw (e, y) refl))
        | inr n ↦ (r, refl, seen ∙ (rw (e, n) refl))
      ]

  update_found-some :
      (r : Subscription) (s : Store)
      → find_first q s.subscriptions ≡ some r
      → update_found q f s
        ≡ record s { subscriptions = update_where (has_key subscription_id r.id) f s.subscriptions }
  unfolding update_found
  update_found-some r s e = rw (update_found, e) refl

  update_found-none : (s : Store) → find_first q s.subscriptions ≡ none → update_found q f s ≡ s
  unfolding update_found
  update_found-none s e = rw (update_found, e) refl

  update_found-again : (s : Store) → update_found q f (update_found q f s) ≡ update_found q f s
  update_found-again s = elim (Option-cases (find_first q s.subscriptions)) [
    | inl e ↦ ap (update_found q f) (update_found-none s e)
    | inr (r, e) ↦
        let after : Store = record s {
          subscriptions = update_where (has_key subscription_id r.id) f s.subscriptions;
        } in
        let (z, same, found) = found_again r s e in
        let second : update_found q f after ≡ after =
          update_found-some z after found
          ∙ ap
              (λ k. record s {
                subscriptions =
                    update_where (has_key subscription_id k) f
                      (update_where (has_key subscription_id r.id) f s.subscriptions);
              })
              same
          ∙ ap (λ xs. record s { subscriptions = xs }) (update-again r.id s.subscriptions) in
        ap (update_found q f) (update_found-some r s e) ∙ second ∙ sym (update_found-some r s e)
  ]

-- The plans are never written.
update_found-plans :
    (q : Subscription → Bool) (f : Subscription → Subscription) (s : Store)
    → (update_found q f s).plans ≡ s.plans
unfolding update_found
update_found-plans q f s = elim (Option-cases (find_first q s.subscriptions)) [
  | inl e ↦ rw (update_found, e) refl
  | inr (r, e) ↦ rw (update_found, e) refl
]

over-twice : (o old : Option ℕ) → over o (over o old) ≡ over o old
over-twice none old = refl
over-twice (some n) old = refl

followed-twice :
    (sub : StripeSubscription) (x : Subscription) → followed sub (followed sub x) ≡ followed sub x
followed-twice sub x =
    let a = over-twice sub.period_start x.current_period_start in
    let b = over-twice sub.period_end x.current_period_end in rw (a, b) refl

module _ (plan : SubscriptionPlan) (session : CheckoutSession) (x : Subscription) where
  activated-twice : activated plan session (activated plan session x) ≡ activated plan session x
  activated-twice = elim (Bool-cases (plan.is_recurring && is_some session.subscription)) [
    | inl e ↦ rw e refl
    | inr e ↦ rw e refl
  ]

  activated-id : (activated plan session x).id ≡ x.id
  activated-id = elim (Bool-cases (plan.is_recurring && is_some session.subscription)) [
    | inl e ↦ rw e refl
    | inr e ↦ rw e refl
  ]

  activated-org : (activated plan session x).organization_id ≡ x.organization_id
  activated-org = elim (Bool-cases (plan.is_recurring && is_some session.subscription)) [
    | inl e ↦ rw e refl
    | inr e ↦ rw e refl
  ]

plan_named-same :
    (slug : Slug) (s t : Store) → t.plans ≡ s.plans → plan_named slug t ≡ plan_named slug s
plan_named-same slug s t e = rw e refl

-- What the event's session asks for, if it names an organisation and a plan that is there.
asked : CheckoutSession → Store → Option (ℕ × SubscriptionPlan)
asked session s = elim session.organization_id [
  | none ↦ none
  | some org ↦ elim session.plan_slug [
    | none ↦ none
    | some slug ↦ elim (plan_named slug s) [ none ↦ none | some plan ↦ some (org, plan) ]
  ]
]

asked-same :
    (session : CheckoutSession) (s t : Store)
    → t.plans ≡ s.plans
    → asked session t ≡ asked session s
unfolding asked
asked-same session s t e = rw e refl

checkout-asked :
    (session : CheckoutSession) (s : Store)
    → handle_checkout_completed session s ≡ elim (asked session s) [
      | none ↦ s
      | some (org, plan) ↦ update_found (of_org org) (activated plan session) s
    ]
unfolding handle_checkout_completed asked
checkout-asked session s = elim (Option-cases session.organization_id) [
  | inl e ↦ rw (e, handle_checkout_completed) refl
  | inr (org, e) ↦ elim (Option-cases session.plan_slug) [
    | inl k ↦ rw (e, k, handle_checkout_completed) refl
    | inr (slug, k) ↦ elim (Option-cases (plan_named slug s)) [
      | inl n ↦ rw (e, k, n, handle_checkout_completed) refl
      | inr (plan, n) ↦ rw (e, k, n, handle_checkout_completed) refl
    ]
  ]
]

checkout-again :
    (session : CheckoutSession) (s : Store)
    → handle_checkout_completed session (handle_checkout_completed session s)
      ≡ handle_checkout_completed session s
checkout-again session s = elim (Option-cases (asked session s)) [
  | inl e ↦
      let nothing : handle_checkout_completed session s ≡ s =
        checkout-asked session s ∙ (rw e refl) in
      ap (handle_checkout_completed session) nothing
  | inr ((org, plan), e) ↦
      let f = activated plan session in
      let u : Store = update_found (of_org org) f s in
      let first : handle_checkout_completed session s ≡ u =
        checkout-asked session s ∙ (rw e refl) in
      let still : asked session u ≡ some (org, plan) =
        asked-same session s u (update_found-plans (of_org org) f s) ∙ e in
      let second : handle_checkout_completed session u ≡ update_found (of_org org) f u =
        checkout-asked session u ∙ (rw still refl) in
      ap (handle_checkout_completed session) first
      ∙ second
      ∙ update_found-again (of_org org) f (λ x. ap (λ k. k == org) (activated-org plan session x))
          (activated-id plan session) (activated-twice plan session) s
      ∙ sym first
]

deleted-some :
    (sub : StripeSubscription) (s : Store) (plan : SubscriptionPlan)
    → plan_named free s ≡ some plan
    → handle_subscription_deleted sub s ≡ update_found (of_customer sub.customer) (reverted plan) s
unfolding handle_subscription_deleted
deleted-some sub s plan e = rw (handle_subscription_deleted, e) refl

deleted-none :
    (sub : StripeSubscription) (s : Store)
    → plan_named free s ≡ none
    → handle_subscription_deleted sub s ≡ s
unfolding handle_subscription_deleted
deleted-none sub s e = rw (handle_subscription_deleted, e) refl

deleted-again :
    (sub : StripeSubscription) (s : Store)
    → handle_subscription_deleted sub (handle_subscription_deleted sub s)
      ≡ handle_subscription_deleted sub s
deleted-again sub s = elim (Option-cases (plan_named free s)) [
  | inl e ↦ ap (handle_subscription_deleted sub) (deleted-none sub s e)
  | inr (plan, e) ↦
      let u : Store = update_found (of_customer sub.customer) (reverted plan) s in
      let still : plan_named free u ≡ some plan =
        plan_named-same free s u (update_found-plans (of_customer sub.customer) (reverted plan) s)
        ∙ e in
      ap (handle_subscription_deleted sub) (deleted-some sub s plan e)
      ∙ deleted-some sub u plan still
      ∙ update_found-again (of_customer sub.customer) (reverted plan) (λ x. refl) (λ x. refl)
          (λ x. refl) s
      ∙ sym (deleted-some sub s plan e)
]

-- A second delivery of an event, of whatever kind, right after the first changes nothing.
pub handle_webhook_event-again :
    (e : Event) (s : Store)
    → handle_webhook_event e (handle_webhook_event e s) ≡ handle_webhook_event e s
unfolding handle_webhook_event handle_subscription_updated handle_payment_failed handle_invoice_paid
handle_webhook_event-again (checkout_completed session) s = checkout-again session s
handle_webhook_event-again (subscription_updated sub) s =
    update_found-again (of_customer sub.customer) (followed sub) (λ x. refl) (λ x. refl)
      (followed-twice sub) s
handle_webhook_event-again (subscription_deleted sub) s = deleted-again sub s
handle_webhook_event-again (payment_failed none) s = refl
handle_webhook_event-again (payment_failed (some c)) s =
    update_found-again (of_customer c) (with_status past_due) (λ x. refl) (λ x. refl) (λ x. refl) s
handle_webhook_event-again (invoice_paid none) s = refl
handle_webhook_event-again (invoice_paid (some c)) s =
    update_found-again (of_customer c) (with_status active) (λ x. refl) (λ x. refl) (λ x. refl) s
handle_webhook_event-again other s = refl
