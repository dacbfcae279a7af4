-- ===== src/Payments/Tests.antt =====
-- Concrete checkouts, events and histories.
use pexlo_portal.Prelude.{
  ◌↔◌, ℕ, ◌+◌, ◌≡◌, ◌≢◌, ◌⊎◌, refl, sym, true, none, some, [], ◌∷◌, arith, Keyed, zero, suc,
}
use pexlo_portal.Service.{ok}
use pexlo_portal.Ledger.{Invoice, InvoiceStatus, Store, invoice_id}
use pexlo_portal.Invoices.Changing.{UpdateInvoice, update, remove}
use pexlo_portal.Invoices.Tests.{invoice, line, store}
use pexlo_portal.Invoices.Reading.{calculate_invoice_total}
use pexlo_portal.Payments.Settings.{KeyService, StripeConfig, get_stripe_config}
use pexlo_portal.Payments.Oauth.{
  Text, OauthService, connect_state, read_state, sign_state, verify_state, dot, colon,
}
use pexlo_portal.Payments.Oauth.Signed.{Lacks, read_state-connect_state, verify_state_exact}
use pexlo_portal.Payments.Checkout.{
  Sessions, created, create_checkout_session, payable_invoice, new_checkout,
}
use pexlo_portal.Payments.Checkout.Charging.{create_checkout_session_sound, MayPay, Opened}
use pexlo_portal.Payments.Webhook.{
  CheckoutSession, checkout_completed, handle_webhook_event, handle_checkout_completed,
}
use pexlo_portal.Payments.Webhook.Paying.{Pays, Paid, handle_checkout_completed-Pays}
use pexlo_portal.Payments.Webhook.Repeated.{handle_checkout_completed-again}
use pexlo_portal.Payments.Changes.{Holds}
use pexlo_portal.Payments.History.{Reach, done, also, updating, removing, reporting, Reach-paid}

abbrev session : CheckoutSession
session = record {
  id = 70;
  invoice_id = some 41;
  organization_id = some 1;
  amount_total = some 1500;
  payment_intent = some 99;
}

abbrev to_pay : Store
to_pay =
    store (invoice 40 1 InvoiceStatus.draft ∷ invoice 41 2 InvoiceStatus.sent ∷ [])
      (line 80 41 2 750 ∷ []) []

to_pay-Keyed : Keyed invoice_id to_pay.invoices
to_pay-Keyed = ((ground arith, tt), (tt, tt))

handle_checkout_completed-Pays_example :
    ((id org : ℕ) × (x : Invoice) × Pays session (some 66) none to_pay id org x
      × (x.status ≢ InvoiceStatus.paid)
      × Paid session x 5000 to_pay (handle_checkout_completed session (some 66) none 5000 to_pay))
    ⊎ (handle_checkout_completed session (some 66) none 5000 to_pay ≡ to_pay)
handle_checkout_completed-Pays_example =
    handle_checkout_completed-Pays session (some 66) none 5000 to_pay to_pay-Keyed

handle_checkout_completed-again_example :
    handle_checkout_completed session
      (some 66)
      none
      6000
      (handle_checkout_completed session (some 66) none 5000 to_pay)
    ≡ handle_checkout_completed session (some 66) none 5000 to_pay
handle_checkout_completed-again_example =
    handle_checkout_completed-again session (some 66) none 5000 6000 to_pay

abbrev paid_before : Invoice
paid_before = record (invoice 41 2 InvoiceStatus.paid) {
  stripe_payment_intent_id = some 99;
  paid_at = some 5000;
  paid_amount = some 1500;
}

paid_test :
    (handle_checkout_completed session (some 66) none 5000 to_pay).invoices
    ≡ invoice 40 1 InvoiceStatus.draft ∷ paid_before ∷ []
unfolding handle_checkout_completed
paid_test = refl

abbrev paid_store : Store
paid_store = store (invoice 40 1 InvoiceStatus.draft ∷ paid_before ∷ []) (line 80 41 2 750 ∷ []) []

abbrev back_to_draft : UpdateInvoice
back_to_draft = record {
  status = some InvoiceStatus.draft;
  line_items = none;
  due_date = none;
  notes = none;
}

-- After an attempt to reopen it, one to delete it, and a second report of its payment.
abbrev afterwards : Store
afterwards =
    handle_webhook_event (checkout_completed session (some 66)) none 9000
      (remove 41 1 (update 41 back_to_draft 1 paid_store).1).1

history : Reach paid_store afterwards
history =
    also (also (also done (updating 41 back_to_draft 1)) (removing 41 1))
      (reporting (checkout_completed session (some 66)) none 9000)

paid_store-Keyed : Keyed invoice_id paid_store.invoices
paid_store-Keyed = ((ground arith, tt), (tt, tt))

Reach-paid_example : Holds 41 paid_before afterwards.invoices
Reach-paid_example = Reach-paid 41 99 paid_before history paid_store-Keyed refl refl refl

abbrev keys : KeyService
keys = record {
  encrypt = λ k. 0;
  decrypt = λ n. none;
  works = λ k. true;
  register_webhook = λ k org. none;
}

abbrev stripe : Sessions
stripe = record {
  open_url = λ config id. none;
  new_session = λ config id org prices methods. created (record { id = 71; url = 300 });
}

opens : (create_checkout_session keys stripe 41 8 1 true to_pay).0 ≡ ok 300
unfolding create_checkout_session get_stripe_config payable_invoice new_checkout
    calculate_invoice_total
opens = refl

create_checkout_session_sound_example :
    (config : StripeConfig) × (x : Invoice) × ((get_stripe_config keys 1 to_pay).0 ≡ ok config)
    × MayPay 41 8 1 to_pay x
    × Opened stripe config x 1 to_pay 300 (create_checkout_session keys stripe 41 8 1 true to_pay).1
create_checkout_session_sound_example =
    create_checkout_session_sound keys stripe 41 8 1 to_pay true 300 opens

-- A hash without a dot, identifiers in unary, and texts that stand for themselves.
abbrev letters : ℕ → Text
letters zero = []
letters (suc n) = 97 ∷ letters n

abbrev how_many : Text → ℕ
how_many [] = 0
how_many (x ∷ t) = how_many t + 1

abbrev oauth : OauthService
oauth = record {
  hmac = λ t. letters (how_many t);
  encode = λ t. t;
  decode = λ t. t;
  id_text = letters;
  id_of = how_many;
  origin = λ t. some (104 ∷ []);
  token = λ t. none;
}

letters-Lacks : (c n : ℕ) → c ≢ 97 → Lacks c (letters n)
letters-Lacks c zero h = tt
letters-Lacks c (suc n) h = ((λ e. h (sym e)), letters-Lacks c n h)

how_many-letters : (n : ℕ) → how_many (letters n) ≡ n
how_many-letters zero = refl
how_many-letters (suc n) = omega (arith, how_many-letters n)

begun :
    connect_state oauth (104 ∷ []) 2 (104 ∷ 47 ∷ [])
    ≡ some (sign_state oauth (97 ∷ 97 ∷ 58 ∷ 104 ∷ 47 ∷ []))
unfolding connect_state sign_state
begun = refl

read_state-connect_state_example :
    read_state oauth (104 ∷ []) (sign_state oauth (97 ∷ 97 ∷ 58 ∷ 104 ∷ 47 ∷ []))
    ≡ some (2, 104 ∷ 47 ∷ [])
read_state-connect_state_example =
    read_state-connect_state oauth
      (λ t. letters-Lacks dot (how_many t) (λ e. absurd (ground arith))) (λ t. refl)
      how_many-letters (λ n. letters-Lacks colon n (λ e. absurd (ground arith))) (104 ∷ []) 2
      (104 ∷ 47 ∷ []) (sign_state oauth (97 ∷ 97 ∷ 58 ∷ 104 ∷ 47 ∷ [])) begun

verify_state_exact_example :
    (verify_state oauth (97 ∷ 58 ∷ 46 ∷ 97 ∷ 97 ∷ []) ≡ some (97 ∷ 58 ∷ []))
    ↔ ((97 ∷ 58 ∷ 46 ∷ 97 ∷ 97 ∷ []) ≡ sign_state oauth (97 ∷ 58 ∷ []))
verify_state_exact_example =
    verify_state_exact oauth (λ t. letters-Lacks dot (how_many t) (λ e. absurd (ground arith)))
      (97 ∷ 58 ∷ 46 ∷ 97 ∷ 97 ∷ []) (97 ∷ 58 ∷ [])
