-- ===== src/Payments/Checkout.antt =====
-- `createCheckoutSession`: a client pays an invoice.
pub mod Charging
use pexlo_portal.Prelude.{
  ℕ, zero, ◌+◌, ◌*◌, Bool, true, false, not, Option, none, some, List, [], ◌∷◌, ◌++◌, ◌==◌, ◌&&◌,
  ◌||◌, if◌then◌else◌, find_first, update_where, is_some, is_none, same_option, length, ltb, map,
}
use pexlo_portal.Service.{
  Action, Error, pure, gets, throw_if, or_throw, modify, not_found, forbidden, bad_request,
  storage_error, ◌>>=◌, ◌>>◌,
}
use pexlo_portal.Ledger.{
  Invoice, InvoiceStatus, sent, overdue, InvoiceLineItem, ProjectClient, PaymentMethod, card, Store,
}
use pexlo_portal.Invoices.Changing.{owned, same_status}
use pexlo_portal.Invoices.Reading.{lines_of, is_uploaded, calculate_invoice_total}
use pexlo_portal.Payments.Settings.{KeyService, StripeConfig, get_stripe_config, settings_of}

-- `price_data.unit_amount` and `quantity`
pub record PriceLine : Type 0 where
  pub unit_amount : ℕ
  pub quantity : ℕ

pub record Session : Type 0 where
  pub id : ℕ
  pub url : ℕ

-- What Stripe answers: a session, that the request is invalid, or another failure.
pub data Created : Type 0 where
  created : Session → Created
  invalid failed : Created

-- The URL of a session that is still open, and the creation of one.
pub record Sessions : Type 0 where
  pub open_url : StripeConfig → ℕ → Option ℕ
  pub new_session : StripeConfig → (invoice org : ℕ) → List PriceLine → List PaymentMethod → Created

abbrev pub price_line : InvoiceLineItem → PriceLine
price_line l = record { unit_amount = l.unit_price; quantity = l.quantity }

abbrev pub is_empty : List InvoiceLineItem → Bool
is_empty [] = true
is_empty (l ∷ ls) = false

-- One line with the total for an uploaded invoice or one without lines, and else the lines.
unfoldable pub price_lines : Invoice → List InvoiceLineItem → List PriceLine
price_lines i lines =
    if is_uploaded i.type || is_empty lines
    then record { unit_amount = calculate_invoice_total i lines; quantity = 1 } ∷ []
    else map price_line lines

-- `rawMethods.length > 0 ? rawMethods : ["card"]`
abbrev pub or_card : List PaymentMethod → List PaymentMethod
or_card [] = card ∷ []
or_card (m ∷ ms) = m ∷ ms

abbrev pub methods_of : ℕ → Store → List PaymentMethod
methods_of org s = elim (settings_of org s) [
  | none ↦ card ∷ []
  | some r ↦ or_card r.stripe_payment_methods
]

abbrev pub session_of : Created → Option Session
session_of (created x) = some x
session_of _ = none

-- When Stripe finds the request invalid and there were several methods, cards alone are tried.
abbrev pub or_card_only : Created → Bool → Created → Option Session
or_card_only (created x) several again = some x
or_card_only invalid several again = if several then session_of again else none
or_card_only failed several again = none

-- The status of an invoice that can be paid.
abbrev pub is_payable : InvoiceStatus → Bool
is_payable st = same_status st sent || same_status st overdue

-- The session is stored unless another call has stored one since.
abbrev pub store_session : Invoice → ℕ → Store → Store
store_session invoice session s = record s {
  invoices =
      update_where
        (λ (i : Invoice).
          i.id == invoice.id
          && same_option i.stripe_checkout_session_id invoice.stripe_checkout_session_id)
        (λ i. record i { stripe_checkout_session_id = some session }) s.invoices;
}

abbrev pub open_session : Sessions → StripeConfig → Option ℕ → Option ℕ
open_session lib config none = none
open_session lib config (some id) = lib.open_url config id

-- The invoice, to one of its project's clients, while it can be paid.
unfoldable pub payable_invoice : ℕ → ℕ → ℕ → Action Store Invoice
payable_invoice id user org = do
  found ← gets (λ s. find_first (owned id org) s.invoices)
  invoice ← or_throw found not_found
  project ← or_throw invoice.project_id forbidden
  assigned ← gets (λ s.
      find_first (λ (c : ProjectClient). c.project_id == project && c.user_id == user) s.clients)
  throw_if (not (is_some assigned)) forbidden
  throw_if (not (is_payable invoice.status)) bad_request
  pure invoice

-- A new session, whose identifier the invoice keeps; any failure of Stripe is `storage_error`.
unfoldable pub new_checkout : Sessions → StripeConfig → Invoice → ℕ → Action Store ℕ
new_checkout lib config invoice org = do
  lines ← gets (lines_of invoice.id)
  throw_if (calculate_invoice_total invoice lines == 0) bad_request
  methods ← gets (methods_of org)
  let prices = price_lines invoice lines
  session ←
      or_throw
        (or_card_only (lib.new_session config invoice.id org prices methods)
          (ltb 1 (length methods)) (lib.new_session config invoice.id org prices (card ∷ [])))
        storage_error
  modify (store_session invoice session.id)
  pure session.url

-- The invoice's session while that is open, and else a new one.
abbrev pub checkout_of : Sessions → StripeConfig → ℕ → Invoice → Action Store ℕ
checkout_of lib config org invoice =
    elim (open_session lib config invoice.stripe_checkout_session_id) [
      | none ↦ new_checkout lib config invoice org
      | some url ↦ pure url
    ]

-- `app_urls` says that both addresses are on the application's domain.
unfoldable pub create_checkout_session : KeyService → Sessions → ℕ → ℕ → ℕ → Bool → Action Store ℕ
create_checkout_session keys lib id user org app_urls = do
  throw_if (not app_urls) bad_request
  config ← get_stripe_config keys org
  invoice ← payable_invoice id user org
  checkout_of lib config org invoice
