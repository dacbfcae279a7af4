-- ===== src/Invoices/Creating.antt =====
-- `create`, `createUploaded` and `createUploadedAndNotify`, with the retries on a taken number.
pub mod Stuck
pub mod Attempts
use pexlo_portal.Prelude.{
  ℕ, zero, suc, Bool, true, false, not, Option, none, some, List, [], ◌∷◌, ◌++◌, ◌==◌, ◌&&◌,
  if◌then◌else◌, map, is_some,
}
use Prim.Native.String.{String}
use pexlo_portal.Service.{
  Action, Result, ok, err, pure, gets, throw_if, modify, transaction, forbidden, unique_violation,
  ◌>>=◌, ◌>>◌,
}
use pexlo_portal.Ledger.{
  Invoice, InvoiceType, itemized, uploaded, draft, InvoiceLineItem, Store, Notice, invoice_sent,
  project_of, insert_invoice,
}
use pexlo_portal.TimeEntries.Number.{Text, invoice_number, next_number}

pub record LineItem : Type 0 where
  pub description : String
  pub quantity : ℕ
  pub unit_price : ℕ

-- Each line of a request stands with the identifier that the database gives it.
abbrev pub Lines : Type 0
Lines = List (ℕ × LineItem)

pub record CreateInvoice : Type 0 where
  pub project_id : Option ℕ
  pub line_items : Lines
  pub due_date : Option ℕ
  pub notes : Option String

pub record CreateUploadedInvoice : Type 0 where
  pub project_id : Option ℕ
  pub amount : ℕ
  pub due_date : Option ℕ
  pub notes : Option String

-- `orderBy: { invoiceNumber: "desc" }`: `before` is the database's order of texts.
abbrev pub greatest_number : (Text → Text → Bool) → ℕ → List Invoice → Option Text
greatest_number before org [] = none
greatest_number before org (i ∷ rest) =
    let found = greatest_number before org rest in
    if i.organization_id == org
    then elim found [
      | none ↦ some i.invoice_number
      | some t ↦ some (if before i.invoice_number t then t else i.invoice_number)
    ]
    else found

-- The number that the next invoice is given.
abbrev pub number_after : (Text → Text → Bool) → ℕ → Store → Text
number_after before org s = invoice_number (next_number (greatest_number before org s.invoices))

-- A request may name no project.
unfoldable pub check_project : Option ℕ → ℕ → Action Store (Unit {0})
check_project none org = pure tt
check_project (some id) org = do
  project ← gets (project_of id org)
  throw_if (not (is_some project)) forbidden

abbrev pub new_line : ℕ → ℕ × LineItem → InvoiceLineItem
new_line invoice (id, l) = record {
  id = id;
  invoice_id = invoice;
  description = l.description;
  quantity = l.quantity;
  unit_price = l.unit_price;
}

abbrev pub add_lines : ℕ → Lines → Store → Store
add_lines invoice lines s = record s { line_items = s.line_items ++ map (new_line invoice) lines }

abbrev pub itemized_invoice : CreateInvoice → ℕ → Text → ℕ → Invoice
itemized_invoice dto org number new_id = record {
  id = new_id;
  invoice_number = number;
  status = draft;
  type = itemized;
  due_date = dto.due_date;
  notes = dto.notes;
  amount = none;
  uploaded_file_id = none;
  project_id = dto.project_id;
  external_reference = none;
  billing_client_id = none;
  organization_id = org;
  stripe_checkout_session_id = none;
  stripe_payment_intent_id = none;
  paid_at = none;
  paid_amount = none;
}

abbrev pub uploaded_invoice : CreateUploadedInvoice → ℕ → ℕ → Text → ℕ → Invoice
uploaded_invoice dto file org number new_id = record {
  id = new_id;
  invoice_number = number;
  status = draft;
  type = uploaded;
  due_date = dto.due_date;
  notes = dto.notes;
  amount = some dto.amount;
  uploaded_file_id = some file;
  project_id = dto.project_id;
  external_reference = none;
  billing_client_id = none;
  organization_id = org;
  stripe_checkout_session_id = none;
  stripe_payment_intent_id = none;
  paid_at = none;
  paid_amount = none;
}

-- What follows a call that failed on a unique index is `again`, on the state it left.
abbrev pub or_again :
    {A : Type 0} → Result A × Store → (Store → Result A × Store) → Result A × Store
or_again (err unique_violation, s) again = again s
or_again r again = r

-- `n` retries are left; `others` is what other calls do to the database before the next one.
unfoldable pub with_retries :
    {A : Type 0} → ℕ → (ℕ → Store → Store) → Action Store A → Action Store A
with_retries zero others m s = m s
with_retries (suc n) others m s = or_again (m s) (λ t. with_retries n others m (others n t))

module _ (before : Text → Text → Bool) where
  unfoldable pub create_once : CreateInvoice → ℕ → ℕ → Action Store Invoice
  unfolding check_project
  create_once dto org new_id = do
    check_project dto.project_id org
    transaction (λ start end. start)
        (do
          number ← gets (number_after before org)
          let invoice = itemized_invoice dto org number new_id
          insert_invoice invoice
          modify (add_lines new_id dto.line_items)
          pure invoice)

  unfoldable pub create : CreateInvoice → ℕ → ℕ → (ℕ → Store → Store) → Action Store Invoice
  create dto org new_id others = with_retries 3 others (create_once dto org new_id)

  unfoldable pub create_uploaded_once : CreateUploadedInvoice → ℕ → ℕ → ℕ → Action Store Invoice
  unfolding check_project
  create_uploaded_once dto file org new_id = do
    check_project dto.project_id org
    transaction (λ start end. start)
        (do
          number ← gets (number_after before org)
          let invoice = uploaded_invoice dto file org number new_id
          insert_invoice invoice
          pure invoice)

  unfoldable pub create_uploaded :
      CreateUploadedInvoice → ℕ → ℕ → ℕ → (ℕ → Store → Store) → Action Store Invoice
  create_uploaded dto file org new_id others =
      with_retries 3 others (create_uploaded_once dto file org new_id)

  -- Of an invoice of a project its clients are told, draft or not.
  unfoldable pub create_uploaded_and_notify :
      CreateUploadedInvoice → ℕ → ℕ → ℕ → (ℕ → Store → Store) → Action Store Invoice
  create_uploaded_and_notify dto file org new_id others = do
    invoice ← create_uploaded dto file org new_id others
    modify (λ s.
        if is_some invoice.project_id
        then record s { notices = s.notices ++ invoice_sent invoice.id ∷ [] }
        else s)
    pure invoice
