-- ===== src/Payments/Effects.antt =====
-- Recording, billing, checkout and the webhook, as changes of the table of invoices.
use pexlo_portal.Prelude.{
  ℕ, ◌≡◌, ◌≢◌, ◌⊎◌, ◌∙◌, inl, inr, refl, sym, ap, subst, Bool, true, false, Option, none, some,
  List, [], ◌∷◌, arith, find_first, update_where, All, Bool-cases, Option-cases, any, ◌==◌, ltb,
  length, same_option, ◌&&◌, or_else,
}
use Prim.Native.String.{String}
use pexlo_portal.Service.{Error, err, Result_cases_of, ◌>>=◌, >>=-cases}
use pexlo_portal.Ledger.{Invoice, paid, card, Store, TimeEntry, update_entry}
use pexlo_portal.TimeEntries.Number.{Text, invoice_number, next_number}
use pexlo_portal.TimeEntries.Invoicing.{
  Amounts, Scope, GenerateInvoice, bill, draft_invoice, last_number, generate_invoice,
  select_entries, backfill_rates, missing_rate, set_rate, eligible_entries, scope_of, target_name,
}
use pexlo_portal.TimeEntries.Invoicing.Numbered.{bill-invoices}
use pexlo_portal.Invoices.Creating.{check_project, number_after}
use pexlo_portal.Invoices.Recording.{
  RecordInvoice, record_once, record_transaction, recorded_invoice,
}
use pexlo_portal.Invoices.Recording.Exact.{record_transaction-exact, record_transaction-err}
use pexlo_portal.Payments.Settings.{KeyService, StripeConfig, get_stripe_config}
use pexlo_portal.Invoices.Reading.{calculate_invoice_total, lines_of}
use pexlo_portal.Invoices.Changing.{owned}
use pexlo_portal.Payments.Checkout.{
  Sessions, create_checkout_session, payable_invoice, new_checkout, store_session, open_session,
  checkout_of, or_card_only, price_lines, methods_of,
}
use pexlo_portal.Payments.Webhook.{
  Event, checkout_completed, account_deauthorized, checkout_expired, other, CheckoutSession,
  handle_webhook_event, handle_checkout_completed, handle_checkout_expired,
  handle_account_deauthorized, has_session, clear_session, complete, mark_paid, is_unpaid, pay,
  metadata, by_account, is_trusted,
}
use pexlo_portal.Payments.Changes.{Change, kept, added, rewritten, KeepsPayment}

module _ (before : Text → Text → Bool) (dto : RecordInvoice) (file : Option ℕ)
    (org new_id new_line : ℕ) (s : Store)
    (fresh : All (λ (y : Invoice). y.id ≢ new_id) s.invoices) where
  record_transaction-Change :
      Change s.invoices (record_transaction before dto file org new_id new_line s).1.invoices
  record_transaction-Change =
      elim (Result_cases_of (record_transaction before dto file org new_id new_line s).0) [
        | inl (y, h) ↦
            let (r, _) = record_transaction-exact before dto file org new_id new_line y s h in
            rw r.0 (added (recorded_invoice dto file org (number_after before org s) new_id) fresh)
        | inr (e, h) ↦ rw (record_transaction-err before dto file org new_id new_line s h) kept
      ]

  record_once-invoices :
      ((record_once before dto file org new_id new_line s).1.invoices ≡ s.invoices)
      ⊎ ((record_once before dto file org new_id new_line s).1.invoices
          ≡ (record_transaction before dto file org new_id new_line s).1.invoices)
  unfolding record_once check_project
  record_once-invoices = ground arith

  pub record_once-Change :
      Change s.invoices (record_once before dto file org new_id new_line s).1.invoices
  record_once-Change = elim record_once-invoices [
    | inl e ↦ rw e kept
    | inr e ↦ rw e record_transaction-Change
  ]

backfill_rates-invoices :
    (org : ℕ) (es : List TimeEntry) (s : Store) → (backfill_rates org es s).1.invoices ≡ s.invoices
unfolding backfill_rates
backfill_rates-invoices org [] s = refl
backfill_rates-invoices org (e ∷ es) s = elim (Option-cases (missing_rate org e s)) [
  | inl m ↦ rw (m, backfill_rates) (backfill_rates-invoices org es s)
  | inr (r, m) ↦
      rw (m, backfill_rates) (backfill_rates-invoices org es (update_entry e.id (set_rate r) s))
]

select_entries-invoices :
    (scope : Scope) (org : ℕ) (dto : GenerateInvoice) (s : Store)
    → (select_entries scope org dto s).1.invoices ≡ s.invoices
unfolding select_entries
select_entries-invoices scope org dto s =
    ground (arith, backfill_rates-invoices org (eligible_entries scope org dto s) s)

module _ (lib : Amounts) (org invoice : ℕ) (new_line : ℕ → ℕ) where
  bill-err :
      (scope : Scope) (target : String) (merge : Bool) (es : List TimeEntry) (s : Store) (e : Error)
      → (bill lib scope target org merge es invoice new_line s).0 ≡ err e
      → (bill lib scope target org merge es invoice new_line s).1 ≡ s
  unfolding bill
  bill-err scope target merge es s e h = ground arith

  bill-Change :
      (scope : Scope) (target : String) (merge : Bool) (es : List TimeEntry) (s : Store)
      → All (λ (y : Invoice). y.id ≢ invoice) s.invoices
      → Change s.invoices (bill lib scope target org merge es invoice new_line s).1.invoices
  bill-Change scope target merge es s fresh =
      elim (Result_cases_of (bill lib scope target org merge es invoice new_line s).0) [
        | inl (k, h) ↦ rw (bill-invoices lib scope target org merge es invoice new_line s k h) (
            added
              (draft_invoice scope org invoice
                (invoice_number (next_number (last_number org s.invoices))))
              fresh)
        | inr (e, h) ↦ rw (bill-err scope target merge es s e h) kept
      ]

  generate_invoice-invoices :
      (dto : GenerateInvoice) (s : Store)
      → ((generate_invoice lib org dto invoice new_line s).1.invoices ≡ s.invoices)
        ⊎ ((c : Scope) × (target : String) × (es : List TimeEntry) × ((generate_invoice lib org dto
                invoice new_line s).1.invoices
              ≡ (bill lib c target org dto.merge_entries es invoice new_line
                  (select_entries c org dto s).1).1.invoices))
  unfolding generate_invoice
  generate_invoice-invoices dto s =
      elim (Option-cases (scope_of dto.project_id dto.billing_client_id)) [
        | inl e ↦ inl (rw e refl)
        | inr (c, e) ↦ elim (Option-cases (target_name c org s)) [
          | inl n ↦ inl (rw (e, n) refl)
          | inr (target, n) ↦
              elim (>>=-cases (select_entries c org dto)
                (λ es. bill lib c target org dto.merge_entries es invoice new_line) s) [
                  | inl (x, r) ↦
                      inl
                        (rw (e, n) (ap (λ q. q.1.invoices) r ∙ select_entries-invoices c org dto s))
                  | inr (es, found, r) ↦ inr (c, target, es, rw (e, n) (ap (λ q. q.1.invoices) r))
                ]
        ]
      ]

  pub generate_invoice-Change :
      (dto : GenerateInvoice) (s : Store)
      → All (λ (y : Invoice). y.id ≢ invoice) s.invoices
      → Change s.invoices (generate_invoice lib org dto invoice new_line s).1.invoices
  generate_invoice-Change dto s fresh = elim (generate_invoice-invoices dto s) [
    | inl e ↦ rw e kept
    | inr (c, target, es, e) ↦
        let same = select_entries-invoices c org dto s in
        let t = (select_entries c org dto s).1 in
        rw e (
          subst
            (λ is.
              Change is (bill lib c target org dto.merge_entries es invoice new_line t).1.invoices)
            same
            (bill-Change c target dto.merge_entries es t
              (subst (λ is. All (λ (y : Invoice). y.id ≢ invoice) is) (sym same) fresh)))
  ]

-- A change of the session's column alone.
session-KeepsPayment :
    (x : Invoice) (o : Option ℕ) → KeepsPayment x (record x { stripe_checkout_session_id = o })
session-KeepsPayment x o is_paid = record {
  still_paid = is_paid;
  same_intent = refl;
  same_amount = refl;
  same_time = refl;
}

get_stripe_config-reads :
    (keys : KeyService) (org : ℕ) (s : Store) → (get_stripe_config keys org s).1 ≡ s
unfolding get_stripe_config
get_stripe_config-reads keys org s = ground arith

payable_invoice-reads : (id user org : ℕ) (s : Store) → (payable_invoice id user org s).1 ≡ s
unfolding payable_invoice
payable_invoice-reads id user org s = ground arith

new_checkout-invoices :
    (lib : Sessions) (config : StripeConfig) (x : Invoice) (org : ℕ) (s : Store)
    → ((new_checkout lib config x org s).1.invoices ≡ s.invoices)
      ⊎ ((n : ℕ) × ((new_checkout lib config x org s).1.invoices ≡ (store_session x n s).invoices))
unfolding new_checkout
new_checkout-invoices lib config x org s =
    let total = calculate_invoice_total x (lines_of x.id s) in
    let prices = price_lines x (lines_of x.id s) in
    let methods = methods_of org s in
    let answer =
      or_card_only (lib.new_session config x.id org prices methods) (ltb 1 (length methods))
        (lib.new_session config x.id org prices (card ∷ [])) in
    elim (Bool-cases (total == 0)) [
      | inl e ↦ inl (rw e refl)
      | inr e ↦ elim (Option-cases answer) [
        | inl n ↦ inl (rw (e, n) refl)
        | inr (session, n) ↦ inr (session.id, rw (e, n) refl)
      ]
    ]

-- Opening a checkout writes at most the session's column of one invoice.
module _ (keys : KeyService) (lib : Sessions) (id user org : ℕ) (s : Store) where
  checkout_of-invoices :
      (config : StripeConfig) (x : Invoice) (t : Store)
      → t ≡ s
      → ((checkout_of lib config org x t).1.invoices ≡ s.invoices)
        ⊎ ((n : ℕ) × ((checkout_of lib config org x t).1.invoices ≡ (store_session x n s).invoices))
  checkout_of-invoices config x t same =
      elim (Option-cases (open_session lib config x.stripe_checkout_session_id)) [
        | inl e ↦ rw (same, e, checkout_of) (new_checkout-invoices lib config x org s)
        | inr (url, e) ↦ inl (rw (same, e, checkout_of) refl)
      ]

  create_checkout_session-invoices :
      (app_urls : Bool)
      → ((create_checkout_session keys lib id user org app_urls s).1.invoices ≡ s.invoices)
        ⊎ ((x : Invoice) × (n : ℕ) × ((create_checkout_session keys lib id user org app_urls
                s).1.invoices
              ≡ (store_session x n s).invoices))
  unfolding create_checkout_session
  create_checkout_session-invoices false = inl refl
  create_checkout_session-invoices true =
      let reads = get_stripe_config-reads keys org s in
      elim (>>=-cases (get_stripe_config keys org)
        (λ config. payable_invoice id user org >>= checkout_of lib config org) s) [
          | inl (e, r) ↦ inl (ap (λ q. q.1.invoices) r ∙ ap (λ (t : Store). t.invoices) reads)
          | inr (config, _, r) ↦
              let u : Store = (get_stripe_config keys org s).1 in
              let reads' : (payable_invoice id user org u).1 ≡ s =
                payable_invoice-reads id user org u ∙ reads in
              elim (>>=-cases (payable_invoice id user org) (checkout_of lib config org) u) [
                | inl (e, r') ↦
                    inl (ap (λ q. q.1.invoices) (r ∙ r') ∙ ap (λ (t : Store). t.invoices) reads')
                | inr (x, _, r') ↦
                    elim (checkout_of-invoices config x (payable_invoice id user org u).1 reads') [
                      | inl e ↦ inl (ap (λ q. q.1.invoices) (r ∙ r') ∙ e)
                      | inr (n, e) ↦ inr (x, n, ap (λ q. q.1.invoices) (r ∙ r') ∙ e)
                    ]
              ]
        ]

  pub create_checkout_session-Change :
      (app_urls : Bool)
      → Change s.invoices (create_checkout_session keys lib id user org app_urls s).1.invoices
  create_checkout_session-Change app_urls = elim (create_checkout_session-invoices app_urls) [
    | inl e ↦ rw e kept
    | inr (x, n, e) ↦ rw e (
        rewritten
          (λ (i : Invoice).
            i.id == x.id && same_option i.stripe_checkout_session_id x.stripe_checkout_session_id)
          (λ i. record i { stripe_checkout_session_id = some n }) (λ z. refl)
          (λ i z row hit. session-KeepsPayment z (some n)))
  ]

is_unpaid_sound : (id : ℕ) (x : Invoice) → is_unpaid id x ≡ true → x.status ≢ paid
is_unpaid_sound id x e p = ground arith

handle_checkout_completed-invoices :
    (session : CheckoutSession) (account verified : Option ℕ) (now : ℕ) (s : Store)
    → ((handle_checkout_completed session account verified now s).invoices ≡ s.invoices)
      ⊎ ((id amount : ℕ) × ((handle_checkout_completed session account verified now s).invoices
            ≡ update_where (is_unpaid id) (pay now amount session.payment_intent) s.invoices))
unfolding handle_checkout_completed
handle_checkout_completed-invoices session account verified now s =
    elim (Option-cases (metadata session)) [
      | inl e ↦ inl (rw (e, handle_checkout_completed) refl)
      | inr ((id, org), e) ↦ elim (Bool-cases (is_trusted org account verified s)) [
        | inr u ↦ inl (rw (e, u, handle_checkout_completed) refl)
        | inl u ↦ elim (Option-cases (find_first (owned id org) s.invoices)) [
          | inl n ↦ inl (rw (e, u, n, complete, handle_checkout_completed) refl)
          | inr (x, n) ↦ elim (Bool-cases (any (is_unpaid x.id) s.invoices)) [
            | inl a ↦ inr (
              x.id,
              or_else session.amount_total (calculate_invoice_total x (lines_of x.id s)),
              rw (e, u, n, a, complete, mark_paid, handle_checkout_completed) refl,
            )
            | inr a ↦ inl (rw (e, u, n, a, complete, mark_paid, handle_checkout_completed) refl)
          ]
        ]
      ]
    ]

module _ (verified : Option ℕ) (now : ℕ) (s : Store) where
  handle_account_deauthorized-invoices :
      (account : Option ℕ) → (handle_account_deauthorized account s).invoices ≡ s.invoices
  unfolding handle_account_deauthorized
  handle_account_deauthorized-invoices none = refl
  handle_account_deauthorized-invoices (some a) =
      elim (Option-cases (find_first (by_account a) s.settings)) [
        | inl e ↦ rw (e, handle_account_deauthorized) refl
        | inr (r, e) ↦ rw (e, handle_account_deauthorized) refl
      ]

  handle_checkout_expired-Change :
      (session : CheckoutSession) → Change s.invoices (handle_checkout_expired session s).invoices
  unfolding handle_checkout_expired
  handle_checkout_expired-Change session = elim (Option-cases session.invoice_id) [
    | inl e ↦ rw e kept
    | inr (id, e) ↦ rw e (
        rewritten (has_session id session.id) clear_session (λ z. refl)
          (λ i z row hit. session-KeepsPayment z none))
  ]

  pub handle_webhook_event-Change :
      (e : Event) → Change s.invoices (handle_webhook_event e verified now s).invoices
  unfolding handle_webhook_event
  handle_webhook_event-Change (checkout_completed session account) =
      elim (handle_checkout_completed-invoices session account verified now s) [
        | inl e ↦ rw e kept
        | inr (id, amount, e) ↦ rw e (
            rewritten (is_unpaid id) (pay now amount session.payment_intent) (λ z. refl)
              (λ i z row hit is_paid. absurd (is_unpaid_sound id z hit is_paid)))
      ]
  handle_webhook_event-Change (account_deauthorized account) =
      rw (handle_account_deauthorized-invoices account) kept
  handle_webhook_event-Change (checkout_expired session) = handle_checkout_expired-Change session
  handle_webhook_event-Change other = kept
