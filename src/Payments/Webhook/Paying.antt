-- ===== src/Payments/Webhook/Paying.antt =====
-- What a completed checkout does to the tables, case by case.
use pexlo_portal.Prelude.{
  ℕ, ◌≡◌, ◌≢◌, ◌⊎◌, ◌∙◌, inl, inr, refl, sym, true, false, Option, some, List, [], ◌∷◌, ◌++◌, arith,
  Bool-cases, Option-cases, find_first, find_first-update, update_where, any, or_else, has_key, All,
  ℕ_discrete, subst, Keyed, row_by_key,
}
use pexlo_portal.Ledger.{Invoice, paid, Store, invoice_paid, invoice_id}
use pexlo_portal.Invoices.Changing.{owned}
use pexlo_portal.Invoices.Reading.{lines_of, calculate_invoice_total}
use pexlo_portal.Payments.Webhook.{
  CheckoutSession, handle_checkout_completed, metadata, is_trusted, is_unpaid, pay, complete,
  mark_paid,
}

-- What the invoice is marked with: what Stripe says was paid, or else its total.
abbrev pub amount_of : CheckoutSession → Invoice → Store → ℕ
amount_of session x s = or_else session.amount_total (calculate_invoice_total x (lines_of x.id s))

abbrev pub paid_store : CheckoutSession → Invoice → ℕ → Store → Store
paid_store session x now s = record s {
  invoices =
      update_where (is_unpaid x.id) (pay now (amount_of session x s) session.payment_intent)
        s.invoices;
  notices = s.notices ++ invoice_paid x.id ∷ [];
}

-- The event names an invoice, can be trusted, and the invoice is there and unpaid.
pub record Pays (session : CheckoutSession) (account verified : Option ℕ) (s : Store) (id org : ℕ)
    (x : Invoice) : Type 0 where
  pub named : metadata session ≡ some (id, org)
  pub trusted : is_trusted org account verified s ≡ true
  pub found : find_first (owned id org) s.invoices ≡ some x
  pub open_yet : any (is_unpaid x.id) s.invoices ≡ true

module _ (session : CheckoutSession) (account verified : Option ℕ) (s : Store) where
  pub Pays-paid_store :
      (id org : ℕ) (x : Invoice) (now : ℕ)
      → Pays session account verified s id org x
      → handle_checkout_completed session account verified now s ≡ paid_store session x now s
  unfolding handle_checkout_completed
  Pays-paid_store id org x now h =
      rw (h.named, handle_checkout_completed, h.trusted, h.found, h.open_yet, complete, mark_paid)
        refl

  pub Pays-cases :
      ((id org : ℕ) × (x : Invoice) × Pays session account verified s id org x)
      ⊎ ((now : ℕ) → handle_checkout_completed session account verified now s ≡ s)
  unfolding handle_checkout_completed
  Pays-cases = elim (Option-cases (metadata session)) [
    | inl e ↦ inr (λ now. rw (e, handle_checkout_completed) refl)
    | inr ((id, org), e) ↦ elim (Bool-cases (is_trusted org account verified s)) [
      | inr u ↦ inr (λ now. rw (e, u, handle_checkout_completed) refl)
      | inl u ↦ elim (Option-cases (find_first (owned id org) s.invoices)) [
        | inl n ↦ inr (λ now. rw (e, u, n, complete, handle_checkout_completed) refl)
        | inr (x, n) ↦ elim (Bool-cases (any (is_unpaid x.id) s.invoices)) [
          | inl a ↦ inl (id, org, x, record { named = e; trusted = u; found = n; open_yet = a })
          | inr a ↦
              inr (λ now. rw (e, u, n, a, complete, mark_paid, handle_checkout_completed) refl)
        ]
      ]
    ]
  ]

-- The invoice is paid, with the amount and the intent of the session; no other invoice changes, and
-- the team is told once.
pub record Paid (session : CheckoutSession) (x : Invoice) (now : ℕ) (s t : Store) : Type 0 where
  pub now_paid :
      find_first (has_key invoice_id x.id) t.invoices
      ≡ some (pay now (amount_of session x s) session.payment_intent x)
  pub others :
      (j : ℕ)
      → j ≢ x.id
      → find_first (has_key invoice_id j) t.invoices ≡ find_first (has_key invoice_id j) s.invoices
  pub told : t.notices ≡ s.notices ++ invoice_paid x.id ∷ []
  pub same_lines : t.line_items ≡ s.line_items

none_unpaid :
    (id : ℕ) (is : List Invoice)
    → All (λ (y : Invoice). y.id ≢ id) is
    → any (is_unpaid id) is ≡ false
none_unpaid id [] h = refl
none_unpaid id (y ∷ is) h = ground (arith, none_unpaid id is h.1)

any_unpaid :
    (id : ℕ) (is : List Invoice) (x : Invoice)
    → Keyed invoice_id is
    → find_first (has_key invoice_id id) is ≡ some x
    → any (is_unpaid id) is ≡ is_unpaid id x
any_unpaid id [] x h found = cc
any_unpaid id (y ∷ is) x h found = elim (ℕ_discrete y.id id) [
  | yes e ↦
      let none_more : any (is_unpaid id) is ≡ false =
        none_unpaid id is (subst (λ k. All (λ (z : Invoice). z.id ≢ k) is) e h.0) in
      ground arith
  | no other ↦ ground (arith, any_unpaid id is x h.1)
]

update-elsewhere :
    (id j : ℕ) (f : Invoice → Invoice) (is : List Invoice)
    → ((z : Invoice) → (f z).id ≡ z.id)
    → j ≢ id
    → find_first (has_key invoice_id j) (update_where (is_unpaid id) f is)
      ≡ find_first (has_key invoice_id j) is
update-elsewhere id j f [] keeps other = refl
update-elsewhere id j f (y ∷ is) keeps other =
    ground (arith, keeps y, update-elsewhere id j f is keeps other)

module _ (session : CheckoutSession) (account verified : Option ℕ) (now : ℕ) (s : Store)
    (keyed : Keyed invoice_id s.invoices) where
  Pays-Paid :
      (id org : ℕ) (x : Invoice)
      → Pays session account verified s id org x
      → x.status ≢ paid × Paid session x now s (paid_store session x now s)
  Pays-Paid id org x h =
      let here : find_first (has_key invoice_id x.id) s.invoices ≡ some x =
        row_by_key invoice_id (owned id org) s.invoices x keyed h.found in
      let unpaid : is_unpaid x.id x ≡ true =
        sym (any_unpaid x.id s.invoices x keyed here) ∙ h.open_yet in
      let paying = pay now (amount_of session x s) session.payment_intent in
      (
        ground arith,
        record {
          now_paid =
              find_first-update (has_key invoice_id x.id) (is_unpaid x.id) paying s.invoices
                (λ z. refl)
              ∙ (rw (here, unpaid) refl);
          others = λ j other. update-elsewhere x.id j paying s.invoices (λ z. refl) other;
          told = refl;
          same_lines = refl;
        },
      )

  -- Where invoices have distinct identifiers, a completed checkout either changes nothing, or it is
  -- trusted and names an invoice of its organisation that is not paid: then that invoice alone is
  -- paid, with what Stripe reports or else its total, and the team is told once.
  pub handle_checkout_completed-Pays :
      ((id org : ℕ) × (x : Invoice) × Pays session account verified s id org x
        × (x.status ≢ paid)
        × Paid session x now s (handle_checkout_completed session account verified now s))
      ⊎ (handle_checkout_completed session account verified now s ≡ s)
  handle_checkout_completed-Pays = elim (Pays-cases session account verified s) [
    | inl (id, org, x, h) ↦
        let (unpaid, done) = Pays-Paid id org x h in
        inl (
          id,
          org,
          x,
          h,
          unpaid,
          rw (Pays-paid_store session account verified s id org x now h) done,
        )
    | inr ignored ↦ inr (ignored now)
  ]
