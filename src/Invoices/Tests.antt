-- ===== src/Invoices/Tests.antt =====
-- Concrete invoices, lines and time entries.
use mathlib.Core.List.{Memᴰ}
use pexlo_portal.Prelude.{
  delete_where, ◌≤◌, ◌<◌, zero, suc, inl, ℕ, ◌≡◌, ◌≢◌, refl, Bool, true, false, Option, none, some,
  List, [], ◌∷◌, arith, if◌then◌else◌, find_first, has_key, ltb, ◌==◌,
}
use pexlo_portal.Service.{Error, ok, err, unique_violation}
use pexlo_portal.Ledger.{
  Invoice, InvoiceStatus, InvoiceType, InvoiceLineItem, TimeEntry, Store, entry_id, insert_invoice,
}
use pexlo_portal.TimeEntries.Number.{
  Text, invoice_number, number_text, digits_from, next_number, match_number,
}
use pexlo_portal.TimeEntries.Double.{to_double}
use pexlo_portal.Invoices.Creating.{CreateInvoice, create, check_project, number_after}
use pexlo_portal.Invoices.Creating.Attempts.{
  create-attempts, state_at, IsPermitted, clashes, created, with_created,
}
use pexlo_portal.Invoices.Creating.Stuck.{create-stuck, IsStuck}
use pexlo_portal.Invoices.Recording.Repeated.{record_transaction-once}
use pexlo_portal.Invoices.Recording.{
  RecordInvoice, record_transaction, check_client, check_file, check_entries, bill_entries,
  recorded_invoice,
}
use pexlo_portal.Invoices.Recording.Exact.{record_transaction-exact, Recorded, AllUnbilled}
use pexlo_portal.Invoices.Changing.{UpdateInvoice, update, release, on_lines}
use pexlo_portal.Invoices.Changing.Replacing.{update-lines}
use pexlo_portal.Invoices.Reading.{lines_of, get_stats}

-- The order of texts by their character codes.
abbrev pub text_before : Text → Text → Bool
text_before [] [] = false
text_before [] (y ∷ ys) = true
text_before (x ∷ xs) [] = false
text_before (x ∷ xs) (y ∷ ys) =
    let rest = text_before xs ys in if ltb x y then true else if x == y then rest else false

abbrev pub invoice : ℕ → ℕ → InvoiceStatus → Invoice
invoice id n status = record {
  id = id;
  invoice_number = invoice_number n;
  status = status;
  type = InvoiceType.itemized;
  due_date = none;
  notes = none;
  amount = none;
  uploaded_file_id = none;
  project_id = some 5;
  external_reference = none;
  billing_client_id = none;
  organization_id = 1;
  stripe_checkout_session_id = some 70;
  stripe_payment_intent_id = none;
  paid_at = none;
  paid_amount = none;
}

abbrev pub line : ℕ → ℕ → ℕ → ℕ → InvoiceLineItem
line id of quantity price = record {
  id = id;
  invoice_id = of;
  description = "Work";
  quantity = quantity;
  unit_price = price;
}

abbrev entry : ℕ → Option ℕ → TimeEntry
entry id on = record {
  id = id;
  organization_id = 1;
  project_id = 5;
  task_id = none;
  user_id = 3;
  description = none;
  started_at = 0;
  ended_at = some 60000;
  duration_sec = some 60;
  billable = true;
  hourly_rate_cents = some 6000;
  invoice_line_item_id = on;
}

abbrev pub store : List Invoice → List InvoiceLineItem → List TimeEntry → Store
store invoices lines entries = record {
  projects =
      record {
        id = 5;
        organization_id = 1;
        name = "Site";
        hourly_rate_cents = some 6000;
        billing_client_id = none;
      }
      ∷ [];
  billing_clients = [];
  members = [];
  tasks = [];
  options = [];
  votes = [];
  entries = entries;
  logs = [];
  captures = [];
  invoices = invoices;
  line_items = lines;
  files = [];
  clients = record { project_id = 5; user_id = 8 } ∷ [];
  settings =
      record {
        organization_id = 1;
        stripe_secret_key = none;
        stripe_webhook_secret = none;
        stripe_connect_account_id = some 66;
        stripe_connect_enabled = true;
        stripe_connect_livemode = false;
        stripe_payment_methods = [];
      }
      ∷ [];
  notices = [];
}

abbrev two_hours : CreateInvoice
two_hours = record {
  project_id = some 5;
  line_items = (31, record { description = "Work"; quantity = 2; unit_price = 6000 }) ∷ [];
  due_date = none;
  notes = none;
}

abbrev many : Store
many = store (invoice 40 9999 InvoiceStatus.draft ∷ invoice 41 10000 InvoiceStatus.sent ∷ []) [] []

many-IsStuck : IsStuck text_before two_hours 1 42 9999 many
unfolding check_project invoice_number number_text digits_from
many-IsStuck = record { permitted = refl; greatest = refl; has_next = refl }

-- Between the attempts, notices are sent.
abbrev noticed : ℕ → Store → Store
noticed k s = record s { notices = [] }

noticed-IsStuck :
    (k : ℕ) (t : Store)
    → IsStuck text_before two_hours 1 42 9999 t
    → IsStuck text_before two_hours 1 42 9999 (noticed k t)
unfolding check_project
noticed-IsStuck k t h = record {
  permitted = h.permitted;
  greatest = h.greatest;
  has_next = h.has_next;
}

create-stuck_example :
    create text_before two_hours 1 42 noticed many ≡ (err unique_violation, noticed 0 many)
create-stuck_example =
    create-stuck text_before two_hours 1 42 9999 noticed many (omega arith) noticed-IsStuck
      many-IsStuck

-- Between the attempts another call removes INV-9999, which the order of texts puts last.
abbrev tidied : ℕ → Store → Store
tidied k s = record s { invoices = delete_where (λ (i : Invoice). i.id == 40) s.invoices }

tidied-IsPermitted :
    (j : ℕ) → j ≤ 1 → IsPermitted text_before two_hours 1 42 (state_at tidied 3 j many)
unfolding check_project
tidied-IsPermitted zero le = refl
tidied-IsPermitted (suc zero) le = refl
tidied-IsPermitted (suc (suc j)) le = absurd (omega arith)

tidied_taken :
    (j : ℕ) → j < 1 → clashes text_before two_hours 1 42 (state_at tidied 3 j many) ≡ true
unfolding invoice_number number_text digits_from next_number match_number to_double
tidied_taken zero le = refl
tidied_taken (suc j) le = absurd (omega arith)

tidied_free : clashes text_before two_hours 1 42 (state_at tidied 3 1 many) ≡ false
unfolding invoice_number number_text digits_from next_number match_number to_double
tidied_free = refl

create-attempts_example :
    let t = state_at tidied 3 1 many in
    create text_before two_hours 1 42 tidied many ≡ (
      if clashes text_before two_hours 1 42 t
      then (err unique_violation, t)
      else (ok (created text_before two_hours 1 42 t), with_created text_before two_hours 1 42 t))
create-attempts_example =
    create-attempts text_before two_hours 1 42 tidied many 1 (omega arith) tidied-IsPermitted
      tidied_taken (inl tidied_free)

abbrev external_bill : RecordInvoice
external_bill = record {
  project_id = some 5;
  billing_client_id = none;
  external_reference = "D-17";
  amount = 12000;
  time_entry_ids = 10 ∷ [];
  due_date = none;
  notes = none;
}

abbrev unbilled_work : Store
unbilled_work =
    store (invoice 40 1 InvoiceStatus.draft ∷ []) [] (entry 10 none ∷ entry 11 none ∷ [])

abbrev recorded : Invoice
recorded = recorded_invoice external_bill none 1 (number_after text_before 1 unbilled_work) 42

records_it :
    (record_transaction text_before external_bill none 1 42 90 unbilled_work).0 ≡ ok recorded
unfolding record_transaction check_client check_file check_entries bill_entries insert_invoice
    invoice_number number_text next_number match_number digits_from to_double
records_it = refl

record_transaction-exact_example :
    Recorded text_before external_bill none 1 42 90 unbilled_work
      (record_transaction text_before external_bill none 1 42 90 unbilled_work).1
    × AllUnbilled (10 ∷ []) 1 unbilled_work.entries
record_transaction-exact_example =
    record_transaction-exact text_before external_bill none 1 42 90 recorded unbilled_work
      records_it

abbrev billed_work : Store
billed_work =
    store (invoice 40 1 InvoiceStatus.draft ∷ []) (line 80 40 1 600 ∷ []) (entry 10 (some 80) ∷ [])

-- The second request asks for the entry of the first, and for another.
abbrev other_bill : RecordInvoice
other_bill = record external_bill { external_reference = "D-18"; time_entry_ids = 11 ∷ 10 ∷ [] }

record_transaction-once_example :
    let t = (record_transaction text_before external_bill none 1 42 90 unbilled_work).1 in
    (x : Error) × (record_transaction text_before other_bill none 1 43 91 t ≡ (err x, t))
record_transaction-once_example =
    record_transaction-once text_before external_bill none 1 42 90 other_bill none 43 91
      unbilled_work recorded (entry 10 none) records_it (Memᴰ.head refl) refl refl

abbrev new_lines : UpdateInvoice
new_lines = record {
  status = none;
  line_items = some two_hours.line_items;
  due_date = none;
  notes = none;
}

update-lines_example :
    let t = (update 40 new_lines 1 billed_work).1 in
    ((update 40 new_lines 1 billed_work).0 ≡ ok tt)
    × (lines_of 40 t ≡ line 31 40 2 6000 ∷ [])
    × ((j : ℕ) → j ≢ 40 → lines_of j t ≡ lines_of j billed_work)
    × ((i : ℕ) (e : TimeEntry)
        → find_first (has_key entry_id i) billed_work.entries ≡ some e
        → find_first (has_key entry_id i) t.entries
          ≡ some
              (if on_lines (lines_of 40 billed_work) e.invoice_line_item_id then release e else e))
update-lines_example =
    update-lines 40 1 new_lines two_hours.line_items (invoice 40 1 InvoiceStatus.draft) billed_work
      refl refl refl

abbrev mixed : Store
mixed =
    store
      (invoice 40 1 InvoiceStatus.paid
        ∷ record (invoice 41 2 InvoiceStatus.sent) {
          type = InvoiceType.uploaded;
          amount = some 500;
        }
        ∷ [])
      (line 80 40 2 600 ∷ line 81 40 1 300 ∷ []) []

stats_test : (get_stats 1 none mixed).total_amount ≡ 2000
unfolding get_stats
stats_test = refl
