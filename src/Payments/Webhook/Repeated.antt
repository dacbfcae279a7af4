-- ===== src/Payments/Webhook/Repeated.antt =====
-- Stripe delivers an event more than once.
use pexlo_portal.Prelude.{
  ℕ, ◌≡◌, ◌∙◌, inl, inr, refl, Bool, true, false, Option, some, List, [], ◌∷◌, arith, if◌then◌else◌,
  find_first, find_first-update, update_where, any,
}
use pexlo_portal.Ledger.{Invoice, Store}
use pexlo_portal.Invoices.Changing.{owned}
use pexlo_portal.Payments.Webhook.{
  CheckoutSession, handle_checkout_completed, is_unpaid, pay, is_trusted, mark_paid, complete,
}
use pexlo_portal.Payments.Webhook.Paying.{Pays, Pays-cases, Pays-paid_store, paid_store, amount_of}

module _ {A : Type 0} (p : A → Bool) (f : A → A) (clears : (x : A) → p (f x) ≡ false) where
  any-update : (xs : List A) → any p (update_where p f xs) ≡ false
  any-update [] = refl
  any-update (x ∷ xs) = ground (arith, any-update xs, clears x)

module _ (session : CheckoutSession) (account verified : Option ℕ) (now later : ℕ) (s : Store) where
  paid_store-again :
      (id org : ℕ) (x : Invoice)
      → Pays session account verified s id org x
      → handle_checkout_completed session account verified later (paid_store session x now s)
        ≡ paid_store session x now s
  unfolding handle_checkout_completed
  paid_store-again id org x h =
      let t : Store = paid_store session x now s in
      let amount : ℕ = amount_of session x s in
      let x' : Invoice = if is_unpaid x.id x then pay now amount session.payment_intent x else x in
      let there : find_first (owned id org) t.invoices ≡ some x' =
        find_first-update (owned id org) (is_unpaid x.id) (pay now amount session.payment_intent)
          s.invoices (λ z. refl)
        ∙ (rw h.found refl) in
      let same : x'.id ≡ x.id = ground arith in
      let closed : any (is_unpaid x'.id) t.invoices ≡ false = rw same (
        any-update (is_unpaid x.id) (pay now amount session.payment_intent) (λ z. ground arith)
          s.invoices) in
      let trusted : is_trusted org account verified t ≡ true = h.trusted in
      rw (h.named, handle_checkout_completed, trusted, there, closed, complete, mark_paid) refl

  -- A second delivery of a completed checkout changes nothing, whether the first one paid the
  -- invoice or was ignored.
  pub handle_checkout_completed-again :
      handle_checkout_completed session account verified later
        (handle_checkout_completed session account verified now s)
      ≡ handle_checkout_completed session account verified now s
  handle_checkout_completed-again = elim (Pays-cases session account verified s) [
    | inl (id, org, x, h) ↦
        rw (Pays-paid_store session account verified s id org x now h) (paid_store-again id org x h)
    | inr ignored ↦ rw (ignored now) (ignored later)
  ]
