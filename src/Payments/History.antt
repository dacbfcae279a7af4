-- ===== src/Payments/History.antt =====
-- The calls of the invoices, payments and time entries services that write invoices, one after
-- another.
use pexlo_portal.Prelude.{
  ℕ, zero, suc, ◌≡◌, ◌≢◌, ◌⊎◌, inl, inr, refl, sym, subst, Bool, Option, some, arith, find_first,
  has_key, All, Keyed,
}
use pexlo_portal.Service.{
  Action, Error, Result, ok, err, not_found, forbidden, bad_request, conflict, unique_violation,
  storage_error, pdf_error, range_error,
}
use pexlo_portal.Ledger.{Invoice, paid, Store, invoice_id}
use pexlo_portal.TimeEntries.Number.{Text}
use pexlo_portal.TimeEntries.Invoicing.{Amounts, GenerateInvoice, generate_invoice}
use pexlo_portal.Invoices.Creating.{
  CreateInvoice, CreateUploadedInvoice, create_once, create_uploaded_once, create, check_project,
  with_retries, or_again,
}
use pexlo_portal.Invoices.Recording.{RecordInvoice, record_once}
use pexlo_portal.Invoices.Changing.{UpdateInvoice, update, remove, mark_overdue_invoices}
use pexlo_portal.Payments.Settings.{KeyService}
use pexlo_portal.Payments.Checkout.{Sessions, create_checkout_session}
use pexlo_portal.Payments.Webhook.{Event, handle_webhook_event}
use pexlo_portal.Payments.Changes.{Change, Change-Keyed, Change-Holds, Holds}
use pexlo_portal.Payments.Operations.{
  create_once-Change, create_uploaded_once-Change, update-Change, remove-Change,
  mark_overdue-Change,
}
use pexlo_portal.Payments.Effects.{
  record_once-Change, generate_invoice-Change, create_checkout_session-Change,
  handle_webhook_event-Change,
}

-- No invoice has this identifier yet.
abbrev pub Fresh : ℕ → Store → Type 0
Fresh id s = All (λ (y : Invoice). y.id ≢ id) s.invoices

-- One call, or one attempt of a call that is retried.
pub data Step (s : Store) : Store → Type 0 where
  creating :
      (before : Text → Text → Bool) (dto : CreateInvoice) (org new_id : ℕ)
      → Fresh new_id s
      → Step s (create_once before dto org new_id s).1
  uploading :
      (before : Text → Text → Bool) (dto : CreateUploadedInvoice) (file org new_id : ℕ)
      → Fresh new_id s
      → Step s (create_uploaded_once before dto file org new_id s).1
  recording :
      (before : Text → Text → Bool) (dto : RecordInvoice) (file : Option ℕ)
      (org new_id new_line : ℕ)
      → Fresh new_id s
      → Step s (record_once before dto file org new_id new_line s).1
  generating :
      (lib : Amounts) (org : ℕ) (dto : GenerateInvoice) (new_id : ℕ) (new_line : ℕ → ℕ)
      → Fresh new_id s
      → Step s (generate_invoice lib org dto new_id new_line s).1
  updating : (id : ℕ) (dto : UpdateInvoice) (org : ℕ) → Step s (update id dto org s).1
  removing : (id org : ℕ) → Step s (remove id org s).1
  marking : (now : ℕ) → Step s (mark_overdue_invoices now s)
  opening :
      (keys : KeyService) (lib : Sessions) (id user org : ℕ) (app_urls : Bool)
      → Step s (create_checkout_session keys lib id user org app_urls s).1
  reporting :
      (e : Event) (verified : Option ℕ) (now : ℕ) → Step s (handle_webhook_event e verified now s)

pub data Reach (s : Store) : Store → Type 0 where
  done : Reach s s
  also : {t u : Store} → Reach s t → Step t u → Reach s u

Step-Change : {s t : Store} → Step s t → Keyed invoice_id s.invoices → Change s.invoices t.invoices
Step-Change {s} (creating before dto org new_id fresh) h =
    create_once-Change before org new_id s fresh dto
Step-Change {s} (uploading before dto file org new_id fresh) h =
    create_uploaded_once-Change before org new_id s fresh dto file
Step-Change {s} (recording before dto file org new_id new_line fresh) h =
    record_once-Change before dto file org new_id new_line s fresh
Step-Change {s} (generating lib org dto new_id new_line fresh) h =
    generate_invoice-Change lib org new_id new_line dto s fresh
Step-Change {s} (updating id dto org) h = update-Change id org s h dto
Step-Change {s} (removing id org) h = remove-Change id org s h
Step-Change {s} (marking now) h = mark_overdue-Change now s
Step-Change {s} (opening keys lib id user org app_urls) h =
    create_checkout_session-Change keys lib id user org s app_urls
Step-Change {s} (reporting e verified now) h = handle_webhook_event-Change verified now s e

Reach-Keyed : {s t : Store} → Reach s t → Keyed invoice_id s.invoices → Keyed invoice_id t.invoices
Reach-Keyed done h = h
Reach-Keyed (also r step) h =
    let here = Reach-Keyed r h in Change-Keyed (Step-Change step here) here

-- Where invoices have distinct identifiers, and new ones get new identifiers, an invoice that was
-- paid through Stripe is still there after any sequence of these calls, in any order: attempts to create, to create from an upload and
-- to record an invoice, generateInvoice, update, remove and markOverdueInvoices of invoices,
-- createCheckoutSession, and Stripe's webhook events, late, repeated or false ones too. It is paid,
-- with the same payment intent, the same amount and the same time of payment. Deleting the account
-- of an organisation, which deletes its invoices, is not among the calls.
pub Reach-paid :
    {s t : Store} (i intent : ℕ) (x : Invoice)
    → Reach s t
    → Keyed invoice_id s.invoices
    → find_first (has_key invoice_id i) s.invoices ≡ some x
    → x.status ≡ paid
    → x.stripe_payment_intent_id ≡ some intent
    → Holds i x t.invoices
Reach-paid i intent x done keyed found is_paid by = (
  x,
  found,
  record { still_paid = is_paid; same_intent = refl; same_amount = refl; same_time = refl },
)
Reach-paid i intent x (also r step) keyed found is_paid by =
    Change-Holds i intent x (Step-Change step (Reach-Keyed r keyed)) by
      (Reach-paid i intent x r keyed found is_paid by)

Reach-trans : {s t u : Store} → Reach s t → Reach t u → Reach s u
Reach-trans r done = r
Reach-trans r (also q step) = also (Reach-trans r q) step

or_again-cases :
    {A : Type 0} (r : Result A × Store) (again : Store → Result A × Store)
    → ((r.0 ≡ err unique_violation) × (or_again r again ≡ again r.1)) ⊎ (or_again r again ≡ r)
or_again-cases (ok a, s) again = inr refl
or_again-cases (err not_found, s) again = inr refl
or_again-cases (err forbidden, s) again = inr refl
or_again-cases (err bad_request, s) again = inr refl
or_again-cases (err conflict, s) again = inr refl
or_again-cases (err unique_violation, s) again = inl (refl, refl)
or_again-cases (err storage_error, s) again = inr refl
or_again-cases (err pdf_error, s) again = inr refl
or_again-cases (err range_error, s) again = inr refl

-- A call that is retried is a sequence of its attempts and of what others do between them.
module _ {A : Type 0} (new_id : ℕ) (m : Action Store A) (others : ℕ → Store → Store)
    (attempt : (t : Store) → Fresh new_id t → Step t (m t).1)
    (refused : (t : Store) → (m t).0 ≡ err unique_violation → (m t).1 ≡ t)
    (elsewhere : (k : ℕ) (t : Store) → Reach t (others k t))
    (no_clash : (k : ℕ) (t : Store) → Fresh new_id t → Fresh new_id (others k t)) where
  with_retries-Reach : (n : ℕ) (s : Store) → Fresh new_id s → Reach s (with_retries n others m s).1
  unfolding with_retries
  with_retries-Reach zero s fresh = also done (attempt s fresh)
  with_retries-Reach (suc n) s fresh =
      let again = λ (t : Store). with_retries n others m (others n t) in
      elim (or_again-cases (m s) again) [
        | inl (taken, e) ↦
            let same : (m s).1 ≡ s = refused s taken in
            let here : Reach s (m s).1 = subst (Reach s) (sym same) done in
            let still : Fresh new_id (m s).1 = subst (Fresh new_id) (sym same) fresh in
            let t : Store = others n (m s).1 in
            subst (λ q. Reach s q.1) (sym e)
              (Reach-trans (Reach-trans here (elsewhere n (m s).1))
                (with_retries-Reach n t (no_clash n (m s).1 still)))
        | inr e ↦ subst (λ q. Reach s q.1) (sym e) (also done (attempt s fresh))
      ]

module _ (before : Text → Text → Bool) (org new_id : ℕ) (others : ℕ → Store → Store)
    (elsewhere : (k : ℕ) (t : Store) → Reach t (others k t))
    (no_clash : (k : ℕ) (t : Store) → Fresh new_id t → Fresh new_id (others k t)) where
  create_once-err :
      (dto : CreateInvoice) (s : Store) (e : Error)
      → (create_once before dto org new_id s).0 ≡ err e
      → (create_once before dto org new_id s).1 ≡ s
  unfolding create_once check_project
  create_once-err dto s e h = ground arith

  -- Creating an invoice, its retries included, whatever calls run between them, amounts to a
  -- sequence of those calls and of attempts, where no other call takes the new identifier.
  pub create-Reach :
      (dto : CreateInvoice) (s : Store)
      → Fresh new_id s
      → Reach s (create before dto org new_id others s).1
  unfolding create
  create-Reach dto s fresh =
      with_retries-Reach new_id (create_once before dto org new_id) others
        (λ t h. creating before dto org new_id h) (λ t h. create_once-err dto t unique_violation h)
        elsewhere no_clash 3 s fresh
