-- ===== src/Payments/Webhook.antt =====
-- What Stripe reports: `handleWebhookEvent`.
pub mod Repeated
pub mod Paying
use pexlo_portal.Prelude.{
  ℕ, Bool, true, false, not, Option, none, some, List, [], ◌∷◌, ◌++◌, ◌==◌, ◌&&◌, if◌then◌else◌,
  find_first, update_where, any, same_option, or_else,
}
use pexlo_portal.Ledger.{
  Invoice, InvoiceStatus, paid, SystemSettings, Store, Notice, invoice_paid, stripe_disconnected,
}
use pexlo_portal.Invoices.Changing.{owned, same_status}
use pexlo_portal.Invoices.Reading.{lines_of, calculate_invoice_total}
use pexlo_portal.Payments.Settings.{of_org, settings_of, clear_payments}

pub record CheckoutSession : Type 0 where
  pub id : ℕ
  pub invoice_id : Option ℕ
  pub organization_id : Option ℕ
  pub amount_total : Option ℕ
  pub payment_intent : Option ℕ

-- An event with the connected account that it comes from, if any.
pub data Event : Type 0 where
  checkout_completed : CheckoutSession → Option ℕ → Event
  account_deauthorized : Option ℕ → Event
  checkout_expired : CheckoutSession → Event
  other : Event

abbrev pub by_account : ℕ → SystemSettings → Bool
by_account account r = same_option r.stripe_connect_account_id (some account)

unfoldable pub handle_account_deauthorized : Option ℕ → Store → Store
handle_account_deauthorized none s = s
handle_account_deauthorized (some account) s = elim (find_first (by_account account) s.settings) [
  | none ↦ s
  | some r ↦ record s {
    settings = update_where (of_org r.organization_id) clear_payments s.settings;
    notices = s.notices ++ stripe_disconnected r.organization_id ∷ [];
  }
]

abbrev pub has_session : ℕ → ℕ → Invoice → Bool
has_session id session i = i.id == id && same_option i.stripe_checkout_session_id (some session)

abbrev pub clear_session : Invoice → Invoice
clear_session i = record i { stripe_checkout_session_id = none }

abbrev pub expire_session : Option ℕ → ℕ → Store → Store
expire_session none session s = s
expire_session (some id) session s = record s {
  invoices = update_where (has_session id session) clear_session s.invoices;
}

unfoldable pub handle_checkout_expired : CheckoutSession → Store → Store
handle_checkout_expired session s = expire_session session.invoice_id session.id s

-- In direct mode the organisation is that whose secret verified the event; in Connect mode its
-- account is that which the event comes from.
abbrev pub is_trusted : ℕ → Option ℕ → Option ℕ → Store → Bool
is_trusted org account verified s =
    elim verified [ none ↦ true | some v ↦ org == v ] && elim account [
      | none ↦ true
      | some a ↦ elim (settings_of org s) [ none ↦ false | some r ↦ by_account a r ]
    ]

abbrev pub is_unpaid : ℕ → Invoice → Bool
is_unpaid id i = i.id == id && not (same_status i.status paid)

abbrev pub pay : ℕ → ℕ → Option ℕ → Invoice → Invoice
pay now amount intent i = record i {
  status = paid;
  paid_at = some now;
  paid_amount = some amount;
  stripe_payment_intent_id = intent;
}

-- The invoice is marked paid unless it is, and then the team is told.
abbrev pub mark_paid : Invoice → CheckoutSession → ℕ → Store → Store
mark_paid invoice session now s =
    let amount =
      or_else session.amount_total (calculate_invoice_total invoice (lines_of invoice.id s)) in
    if any (is_unpaid invoice.id) s.invoices
    then record s {
      invoices =
          update_where (is_unpaid invoice.id) (pay now amount session.payment_intent) s.invoices;
      notices = s.notices ++ invoice_paid invoice.id ∷ [];
    }
    else s

abbrev pub complete : ℕ → ℕ → CheckoutSession → ℕ → Store → Store
complete id org session now s = elim (find_first (owned id org) s.invoices) [
  | none ↦ s
  | some invoice ↦ mark_paid invoice session now s
]

-- The identifiers that the session's metadata holds.
abbrev pub metadata : CheckoutSession → Option (ℕ × ℕ)
metadata session = elim session.invoice_id [
  | none ↦ none
  | some id ↦ elim session.organization_id [ none ↦ none | some org ↦ some (id, org) ]
]

unfoldable pub handle_checkout_completed : CheckoutSession → Option ℕ → Option ℕ → ℕ → Store → Store
handle_checkout_completed session account verified now s = elim (metadata session) [
  | none ↦ s
  | some (id, org) ↦ if is_trusted org account verified s then complete id org session now s else s
]

unfoldable pub handle_webhook_event : Event → Option ℕ → ℕ → Store → Store
handle_webhook_event (checkout_completed session account) verified now s =
    handle_checkout_completed session account verified now s
handle_webhook_event (account_deauthorized account) verified now s =
    handle_account_deauthorized account s
handle_webhook_event (checkout_expired session) verified now s = handle_checkout_expired session s
handle_webhook_event other verified now s = s
