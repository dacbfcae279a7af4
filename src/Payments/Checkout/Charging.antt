-- ===== src/Payments/Checkout/Charging.antt =====
-- What a client is asked to pay, and when.
use pexlo_portal.Prelude.{
  ℕ, ◌+◌, ◌*◌, ◌≡◌, ◌≢◌, ◌⊎◌, ◌∙◌, inl, inr, ap, refl, sym, subst, Bool, true, false, Option, some,
  List, [], ◌∷◌, ◌==◌, ◌&&◌, map, arith, Bool-cases, Option-cases, find_first, length, ltb, is_some,
}
use pexlo_portal.Service.{Result, Error, ok, err, ◌>>=◌, >>=-eq-ok, bad_request, storage_error}
use pexlo_portal.Ledger.{Invoice, InvoiceLineItem, ProjectClient, card, Store}
use pexlo_portal.Invoices.Changing.{owned}
use pexlo_portal.Invoices.Reading.{lines_of, sum_lines, is_uploaded, calculate_invoice_total}
use pexlo_portal.Payments.Settings.{KeyService, StripeConfig, get_stripe_config}
use pexlo_portal.Payments.Checkout.{
  PriceLine, Session, Sessions, price_line, price_lines, is_payable, payable_invoice, new_checkout,
  create_checkout_session, checkout_of, open_session, store_session, methods_of, or_card_only,
}

-- The sum that Stripe asks for.
abbrev pub charged : List PriceLine → ℕ
charged [] = 0
charged (p ∷ ps) = p.unit_amount * p.quantity + charged ps

charged-lines : (ls : List InvoiceLineItem) → charged (map price_line ls) ≡ sum_lines ls
charged-lines [] = refl
charged-lines (l ∷ ls) = ground (arith, charged-lines ls)

-- Stripe asks for exactly the invoice's total, whatever its type and its lines.
pub charged-price_lines :
    (i : Invoice) (lines : List InvoiceLineItem)
    → charged (price_lines i lines) ≡ calculate_invoice_total i lines
unfolding price_lines calculate_invoice_total
charged-price_lines i [] = elim (Bool-cases (is_uploaded i.type)) [
  | inl u ↦ ground arith
  | inr u ↦ ground arith
]
charged-price_lines i (l ∷ ls) = elim (Bool-cases (is_uploaded i.type)) [
  | inl u ↦ ground arith
  | inr u ↦ ground (arith, charged-lines ls)
]

-- The client is assigned to the invoice's project, and the invoice is open for payment.
pub record MayPay (id user org : ℕ) (s : Store) (x : Invoice) : Type 0 where
  pub project : ℕ
  pub found : find_first (owned id org) s.invoices ≡ some x
  pub in_project : x.project_id ≡ some project
  pub assigned :
      is_some
        (find_first (λ (c : ProjectClient). c.project_id == project && c.user_id == user) s.clients)
      ≡ true
  pub payable : is_payable x.status ≡ true

payable_invoice_sound :
    (id user org : ℕ) (s : Store) (x : Invoice)
    → (payable_invoice id user org s).0 ≡ ok x
    → MayPay id user org s x
unfolding payable_invoice
payable_invoice_sound id user org s x h =
    elim (Option-cases (find_first (owned id org) s.invoices)) [
      | inl e ↦ absurd (ground arith)
      | inr (y, e) ↦ elim (Option-cases y.project_id) [
        | inl p ↦ absurd (ground arith)
        | inr (project, p) ↦
            let client = is_some (
              find_first (λ (c : ProjectClient). c.project_id == project && c.user_id == user)
                s.clients) in
            elim (Bool-cases client) [
              | inr c ↦ absurd (ground arith)
              | inl c ↦ elim (Bool-cases (is_payable y.status)) [
                | inr b ↦ absurd (ground arith)
                | inl b ↦
                    let same : y ≡ x = ground arith in
                    subst (MayPay id user org s) same (record {
                      project = project;
                      found = e;
                      in_project = p;
                      assigned = c;
                      payable = b;
                    })
              ]
            ]
      ]
    ]

ok-err : {q : Result ℕ × Store} {e : Error} {url : ℕ} {t : Store} → q ≡ (err e, t) → q.0 ≢ ok url
ok-err {q = q} {e = e} r h = let k : q.0 ≡ err e = ap (λ v. v.0) r in cc

ok_same : {q : Result ℕ × Store} {a url : ℕ} {t : Store} → q ≡ (ok a, t) → q.0 ≡ ok url → a ≡ url
ok_same {q = q} {a = a} r h = let k : q.0 ≡ ok a = ap (λ v. v.0) r in cc

module _ (lib : Sessions) (config : StripeConfig) (x : Invoice) (org : ℕ) (s : Store) where
  -- What Stripe answers to the request for a session, and then to that for one with cards alone.
  abbrev pub answer : Option Session
  answer =
      let prices = price_lines x (lines_of x.id s) in
      or_card_only (lib.new_session config x.id org prices (methods_of org s))
        (ltb 1 (length (methods_of org s))) (lib.new_session config x.id org prices (card ∷ []))

  -- A session that is open already; or a new one, of an amount that is not zero and that the lines
  -- sent to Stripe add up to, whose identifier is stored.
  abbrev pub Opened : ℕ → Store → Type 0
  Opened url t =
      ((open_session lib config x.stripe_checkout_session_id ≡ some url) × (t ≡ s))
      ⊎ ((session : Session) × (answer ≡ some session)
          × (session.url ≡ url)
          × (charged (price_lines x (lines_of x.id s)) ≢ 0)
          × (t ≡ store_session x session.id s))

  new_checkout_sound :
      (url : ℕ)
      → (new_checkout lib config x org s).0 ≡ ok url
      → (session : Session) × (answer ≡ some session)
        × (session.url ≡ url)
        × (charged (price_lines x (lines_of x.id s)) ≢ 0)
        × ((new_checkout lib config x org s).1 ≡ store_session x session.id s)
  unfolding new_checkout
  new_checkout_sound url h =
      let lines : List InvoiceLineItem = lines_of x.id s in
      elim (Bool-cases (calculate_invoice_total x lines == 0)) [
        | inl e ↦
            let r : new_checkout lib config x org s ≡ (err bad_request, s) = rw e refl in
            absurd (ok-err r h)
        | inr e ↦ elim (Option-cases answer) [
          | inl n ↦
              let r : new_checkout lib config x org s ≡ (err storage_error, s) = rw (e, n) refl in
              absurd (ok-err r h)
          | inr (session, n) ↦
              let r : new_checkout lib config x org s
                  ≡ (ok session.url, store_session x session.id s) =
                rw (e, n) refl in
              let same : session.url ≡ url = ok_same r h in
              (
                session,
                n,
                same,
                λ zero_sum. ground (arith, charged-price_lines x lines),
                ap (λ q. q.1) r,
              )
        ]
      ]

  checkout_of_sound :
      (url : ℕ)
      → (checkout_of lib config org x s).0 ≡ ok url
      → Opened url (checkout_of lib config org x s).1
  checkout_of_sound url h =
      elim (Option-cases (open_session lib config x.stripe_checkout_session_id)) [
        | inl e ↦
            let r : checkout_of lib config org x s ≡ new_checkout lib config x org s =
              rw (e, checkout_of) refl in
            rw r (inr (new_checkout_sound url (ap (λ q. q.0) (sym r) ∙ h)))
        | inr (there, e) ↦
            let r : checkout_of lib config org x s ≡ (ok there, s) = rw (e, checkout_of) refl in
            rw r (inl (e ∙ ap some (ok_same r h), refl))
      ]

module _ (keys : KeyService) (lib : Sessions) (id user org : ℕ) (s : Store) where
  reads_settings : (get_stripe_config keys org s).1 ≡ s
  unfolding get_stripe_config
  reads_settings = ground arith

  reads_invoice : (payable_invoice id user org s).1 ≡ s
  unfolding payable_invoice
  reads_invoice = ground arith

  -- A checkout that is opened is opened to a client of the invoice's project, for an invoice that
  -- has been sent and not been paid or cancelled; either its session was open and nothing changes,
  -- or Stripe is asked for an amount that is not zero, the sum of the lines that it is sent, and
  -- the identifier of the new session is stored.
  pub create_checkout_session_sound :
      (app_urls : Bool) (url : ℕ)
      → (create_checkout_session keys lib id user org app_urls s).0 ≡ ok url
      → (config : StripeConfig) × (x : Invoice) × ((get_stripe_config keys org s).0 ≡ ok config)
        × MayPay id user org s x
        × Opened lib config x org s url (create_checkout_session keys lib id user org app_urls s).1
  unfolding create_checkout_session
  create_checkout_session_sound false url h = absurd (ground arith)
  create_checkout_session_sound true url h =
      let (config, h1, k1, e1) =
        >>=-eq-ok (get_stripe_config keys org)
          (λ config. payable_invoice id user org >>= checkout_of lib config org) s url
          reads_settings h in
      let (x, h2, k2, e2) =
        >>=-eq-ok (payable_invoice id user org) (checkout_of lib config org) s url reads_invoice
          k1 in
      (
        config,
        x,
        h1,
        payable_invoice_sound id user org s x h2,
        subst (λ (q : Result ℕ × Store). Opened lib config x org s url q.1) (sym (e1 ∙ e2))
            (checkout_of_sound lib config x org s url k2),
      )
