-- ===== src/Invoices/Recording.antt =====
-- `recordExternalInvoice`: an invoice made elsewhere, and the time entries that it bills.
pub mod Exact
pub mod Repeated
use pexlo_portal.Prelude.{
  ℕ, Bool, true, false, not, Option, none, some, List, [], ◌∷◌, ◌++◌, ◌==◌, ◌&&◌, if◌then◌else◌,
  find_first, find_many, update_where, count, any, every, length, is_some, is_none, same_option,
}
use Prim.Native.String
use Prim.Native.String.{String}
use pexlo_portal.Service.{
  Action, pure, gets, throw_if, or_throw, modify, transaction, forbidden, not_found, bad_request,
  ◌>>=◌, ◌>>◌,
}
use pexlo_portal.Ledger.{
  BillingClient, File, TimeEntry, Invoice, InvoiceType, uploaded, external, draft, InvoiceLineItem,
  Store, insert_invoice,
}
use pexlo_portal.TimeEntries.Number.{Text}
use pexlo_portal.Invoices.Creating.{check_project, number_after, with_retries}

pub record RecordInvoice : Type 0 where
  pub project_id : Option ℕ
  pub billing_client_id : Option ℕ
  pub external_reference : String
  pub amount : ℕ
  pub time_entry_ids : List ℕ
  pub due_date : Option ℕ
  pub notes : Option String

abbrev pub listed : List ℕ → ℕ → Bool
listed ids i = any (λ j. j == i) ids

-- `new Set(ids)` has fewer elements than `ids`.
abbrev pub has_duplicates : List ℕ → Bool
has_duplicates [] = false
has_duplicates (i ∷ ids) = if listed ids i then true else has_duplicates ids

unfoldable pub check_client : Option ℕ → ℕ → Action Store (Unit {0})
check_client none org = pure tt
check_client (some id) org = do
  found ← gets (λ s.
      find_first (λ (b : BillingClient). b.id == id && b.organization_id == org) s.billing_clients)
  throw_if (not (is_some found)) forbidden

abbrev pub differs : Option ℕ → Option ℕ → Bool
differs none b = false
differs (some a) b = not (same_option (some a) b)

abbrev pub give_file : ℕ → Option ℕ → Store → Store
give_file id client s = record s {
  files =
      update_where (λ (f : File). f.id == id) (λ f. record f { billing_client_id = client })
        s.files;
}

-- The uploaded file must not belong to another project or client; a file of no client is given to
-- the client of an invoice without a project.
unfoldable pub check_file : Option ℕ → RecordInvoice → ℕ → Action Store (Unit {0})
check_file none dto org = pure tt
check_file (some id) dto org = do
  found ← gets (λ s. find_first (λ (f : File). f.id == id && f.organization_id == org) s.files)
  file ← or_throw found not_found
  throw_if (is_some dto.project_id && differs file.project_id dto.project_id) bad_request
  throw_if
      (is_none dto.project_id
        && is_some dto.billing_client_id
        && differs file.billing_client_id dto.billing_client_id)
      bad_request
  modify (
      if is_none dto.project_id && is_some dto.billing_client_id && is_none file.billing_client_id
      then give_file id dto.billing_client_id
      else λ s. s)

abbrev pub requested : List ℕ → ℕ → TimeEntry → Bool
requested ids org e = listed ids e.id && e.organization_id == org

-- Every entry is there, and none is on an invoice.
unfoldable pub check_entries : List ℕ → ℕ → Action Store (Unit {0})
check_entries ids org = do
  entries ← gets (λ s. find_many (requested ids org) s.entries)
  throw_if (not (every (λ i. any (λ (e : TimeEntry). e.id == i) entries) ids)) bad_request
  throw_if (any (λ (e : TimeEntry). is_some e.invoice_line_item_id) entries) bad_request

abbrev pub recorded_invoice : RecordInvoice → Option ℕ → ℕ → Text → ℕ → Invoice
recorded_invoice dto file org number new_id = record {
  id = new_id;
  invoice_number = number;
  status = draft;
  type = if is_some file then uploaded else external;
  due_date = dto.due_date;
  notes = dto.notes;
  amount = some dto.amount;
  uploaded_file_id = file;
  project_id = dto.project_id;
  external_reference = some dto.external_reference;
  billing_client_id = dto.billing_client_id;
  organization_id = org;
  stripe_checkout_session_id = none;
  stripe_payment_intent_id = none;
  paid_at = none;
  paid_amount = none;
}

abbrev pub recorded_line : RecordInvoice → ℕ → ℕ → InvoiceLineItem
recorded_line dto invoice new_line = record {
  id = new_line;
  invoice_id = invoice;
  description = String.◌++◌ "Recorded Digits invoice " dto.external_reference;
  quantity = 1;
  unit_price = dto.amount;
}

abbrev pub unbilled : List ℕ → ℕ → TimeEntry → Bool
unbilled ids org e = requested ids org e && is_none e.invoice_line_item_id

abbrev pub put_line : ℕ → TimeEntry → TimeEntry
put_line line e = record e { invoice_line_item_id = some line }

-- The entries that are still on no invoice go on the new line, and must be all.
unfoldable pub bill_entries : List ℕ → ℕ → ℕ → Action Store (Unit {0})
bill_entries ids org line = do
  updated ← gets (λ s. count (unbilled ids org) s.entries)
  modify (λ s. record s { entries = update_where (unbilled ids org) (put_line line) s.entries })
  throw_if (not (updated == length ids)) bad_request

module _ (before : Text → Text → Bool) where
  unfoldable pub record_transaction : RecordInvoice → Option ℕ → ℕ → ℕ → ℕ → Action Store Invoice
  record_transaction dto file org new_id new_line =
      transaction (λ start end. start)
        (do
          check_client dto.billing_client_id org
          check_file file dto org
          check_entries dto.time_entry_ids org
          number ← gets (number_after before org)
          let invoice = recorded_invoice dto file org number new_id
          insert_invoice invoice
          modify (λ s. record s {
            line_items = s.line_items ++ recorded_line dto new_id new_line ∷ [];
          })
          bill_entries dto.time_entry_ids org new_line
          pure invoice)

  unfoldable pub record_once : RecordInvoice → Option ℕ → ℕ → ℕ → ℕ → Action Store Invoice
  record_once dto file org new_id new_line = do
    throw_if (is_none dto.project_id && is_none dto.billing_client_id) bad_request
    check_project dto.project_id org
    throw_if (has_duplicates dto.time_entry_ids) bad_request
    record_transaction dto file org new_id new_line

  unfoldable pub record_external_invoice :
      RecordInvoice → Option ℕ → ℕ → ℕ → ℕ → (ℕ → Store → Store) → Action Store Invoice
  record_external_invoice dto file org new_id new_line others =
      with_retries 3 others (record_once dto file org new_id new_line)
