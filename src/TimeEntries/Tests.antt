-- ===== src/TimeEntries/Tests.antt =====
-- Concrete timers, entries and invoices.
use pexlo_portal.Prelude.{
  map, ◌^◌, All, ℕ, ◌+◌, ◌*◌, ◌≡◌, ◌≤◌, refl, true, false, Option, none, some, List, [], ◌∷◌, arith,
  find_first, has_key, Keyed, any, if◌then◌else◌, count,
}
use pexlo_portal.Service.{Error, ok, err}
use pexlo_portal.Ledger.{
  PendingTimeCapture, ActorType, insert_entry, resolve_rate, TimeEntry, Store, Invoice,
  InvoiceStatus, InvoiceType, entry_id, is_running,
}
use pexlo_portal.TimeEntries.Number.{
  invoice_number, number_text, decimal, match_number, next_number, digits_from,
}
use pexlo_portal.TimeEntries.Double.{to_double, shortest}
use pexlo_portal.TimeEntries.Number.RoundTrip.{match_number-invoice_number}
use pexlo_portal.TimeEntries.Timer.{StartTimer, start, stop, start_transaction, new_timer}
use pexlo_portal.TimeEntries.Timer.Starting.{start_transaction-runs}
use pexlo_portal.TimeEntries.Edits.{delete}
use pexlo_portal.TimeEntries.Captures.{
  ResolvePendingTimeCapture, resolve_pending_capture, resolve_transaction, captured_entry,
}
use pexlo_portal.TimeEntries.Captures.Resolving.{resolve_pending_capture-once}
use pexlo_portal.TimeEntries.Changes.{IsSound}
use pexlo_portal.TimeEntries.History.{
  Reach, here, next, starting, stopping, deleting, Reach-IsSound, Reach-locked,
}
use pexlo_portal.TimeEntries.Invoicing.{
  Amounts, of_project, bill, bill_each, group_by_rate, draft_invoice, set_line,
}
use pexlo_portal.TimeEntries.Invoicing.Grouping.{
  group_rate, group_seconds, entry_seconds, is_grouped, is_at_rate, group_by_rate-exact,
}
use pexlo_portal.TimeEntries.Invoicing.{
  GenerateInvoice, select_entries, eligible_entries, backfill_rates,
}
use pexlo_portal.TimeEntries.Invoicing.Selection.{Billable, select_entries_sound}
use pexlo_portal.TimeEntries.Invoicing.Billing.{entry_line, bill_each-exact}
use pexlo_portal.TimeEntries.Invoicing.Numbered.{bill-number}

abbrev entry : ℕ → ℕ → Option ℕ → Option ℕ → Option ℕ → TimeEntry
entry id from to seconds line = record {
  id = id;
  organization_id = 1;
  project_id = 5;
  task_id = none;
  user_id = 3;
  description = some "Work";
  started_at = from;
  ended_at = to;
  duration_sec = seconds;
  billable = true;
  hourly_rate_cents = some 6000;
  invoice_line_item_id = line;
}

abbrev invoice : ℕ → ℕ → Invoice
invoice id n = record {
  id = id;
  invoice_number = invoice_number n;
  status = InvoiceStatus.draft;
  type = InvoiceType.itemized;
  due_date = none;
  notes = none;
  amount = none;
  uploaded_file_id = none;
  project_id = some 5;
  external_reference = none;
  billing_client_id = none;
  organization_id = 1;
  stripe_checkout_session_id = none;
  stripe_payment_intent_id = none;
  paid_at = none;
  paid_amount = none;
}

abbrev store : List TimeEntry → List Invoice → Store
store entries invoices = record {
  projects =
      record {
        id = 5;
        organization_id = 1;
        name = "Site";
        hourly_rate_cents = some 6000;
        billing_client_id = none;
      }
      ∷ [];
  billing_clients = [];
  members = [];
  tasks = [];
  options = [];
  votes = [];
  entries = entries;
  logs = [];
  invoices = invoices;
  line_items = [];
  captures = [];
  files = [];
  clients = [];
  settings = [];
  notices = [];
}

abbrev billed : TimeEntry
billed = entry 10 0 (some 60000) (some 60) (some 90)

abbrev running : TimeEntry
running = entry 11 70000 none none none

abbrev working : Store
working = store (billed ∷ running ∷ []) []

working_lem : (org user : ℕ) → count (is_running org user) working.entries ≤ 1
working_lem org user = ground arith

working-IsSound : IsSound working.entries
working-IsSound = record {
  keyed = ((ground arith, tt), (tt, tt));
  one_running = working_lem;
  timed = (refl, ((refl, refl), tt));
}

abbrev on_site : StartTimer
on_site = record { project_id = 5; task_id = none; description = none }

abbrev busy : Store
busy = (start 3 1 on_site 80000 12 working).1

a_day : Reach working (delete 10 3 1 (stop 3 1 90000 busy).1).1
a_day =
    next
      (next (next here (starting 3 1 on_site 80000 12 (ground arith, (ground arith, tt))))
        (stopping 3 1 90000))
      (deleting 10 3 1)

Reach-IsSound_example : IsSound (delete 10 3 1 (stop 3 1 90000 busy).1).1.entries
Reach-IsSound_example = Reach-IsSound a_day working-IsSound

Reach-locked_example :
    find_first (has_key entry_id 10) (delete 10 3 1 (stop 3 1 90000 busy).1).1.entries ≡ some billed
Reach-locked_example = Reach-locked 10 90 billed a_day working-IsSound refl refl

start_transaction-runs_example :
    let t = start_transaction 3 1 on_site (some 6000) 80000 12 working in
    (t.0 ≡ ok tt)
    × (find_first (is_running 1 3) t.1.entries ≡ some (new_timer 3 1 on_site (some 6000) 80000 12))
start_transaction-runs_example =
    start_transaction-runs 3 1 on_site (some 6000) 80000 12 working working-IsSound

match_number-invoice_number_example : match_number (invoice_number 10000) ≡ some 10000
match_number-invoice_number_example = match_number-invoice_number 10000 (omega arith)

number_test : invoice_number 42 ≡ 73 ∷ 78 ∷ 86 ∷ 45 ∷ 48 ∷ 48 ∷ 52 ∷ 50 ∷ []
unfolding invoice_number number_text digits_from
number_test = refl

-- Above 2 ** 53 a number is a double: the number after this one is the same number again.
last_exact_test : next_number (some (invoice_number 9007199254740992)) ≡ 9007199254740992
unfolding next_number match_number invoice_number number_text digits_from to_double
last_exact_test = refl

-- 2 ** 60 is written with zeros for the digits that are not needed.
rounded_text_test : number_text (2 ^ 60) ≡ decimal 1152921504606847000
unfolding number_text shortest digits_from to_double
rounded_text_test = refl

-- 2 ** 70 is written as 1.1805916207174113e+21.
exponent_test :
    number_text (2 ^ 70)
    ≡ 49 ∷ 46 ∷ 49 ∷ 56 ∷ 48 ∷ 53 ∷ 57 ∷ 49 ∷ 54 ∷ 50 ∷ 48 ∷ 55 ∷ 49 ∷ 55 ∷ 52 ∷ 49 ∷ 49 ∷ 51 ∷ 101
      ∷ 43 ∷ 50 ∷ 49 ∷ []
unfolding number_text shortest digits_from to_double
exponent_test = refl

abbrev rounding : Amounts
rounding = record {
  amount = λ seconds rate. seconds * rate;
  entry_text = λ label from seconds rate. label;
  merged_text = λ target seconds rate entries. target;
}

abbrev finished : List TimeEntry
finished = entry 20 0 (some 60000) (some 60) none ∷ entry 21 0 (some 30000) (some 30) none ∷ []

group_by_rate-exact_example :
    Keyed group_rate (group_by_rate finished [])
    × ((r : ℕ) → group_seconds r (group_by_rate finished []) ≡ entry_seconds r finished)
    × ((r i : ℕ) → is_grouped r i (group_by_rate finished []) ≡ is_at_rate r i finished)
group_by_rate-exact_example = group_by_rate-exact finished

abbrev unbilled : Store
unbilled = store finished (invoice 40 9999 ∷ [])

bill_each-exact_example :
    let t = bill_each rounding (of_project 5) "Site" 41 (λ i. i + 100) finished unbilled in
    ((i : ℕ)
      → find_first (has_key entry_id i) t.entries
        ≡ elim (find_first (has_key entry_id i) finished) [
          | none ↦ none
          | some e ↦ some (if any (has_key entry_id i) finished then set_line (i + 100) e else e)
        ])
    × (t.line_items ≡ map (entry_line rounding (of_project 5) 41 (λ i. i + 100) unbilled) finished)
bill_each-exact_example =
    bill_each-exact rounding (of_project 5) "Site" 41 (λ i. i + 100) finished unbilled

bill_succeeds :
    (bill rounding (of_project 5) "Site" 1 false finished 41 (λ i. i + 100) unbilled).0 ≡ ok 41
unfolding bill invoice_number number_text next_number match_number digits_from to_double
bill_succeeds = refl

bill-number_example :
    (bill rounding (of_project 5) "Site" 1 false finished 41 (λ i. i + 100) unbilled).1.invoices
    ≡ invoice 40 9999 ∷ draft_invoice (of_project 5) 1 41 (invoice_number 10000) ∷ []
bill-number_example =
    bill-number rounding (of_project 5) "Site" 1 false finished 41 (λ i. i + 100) unbilled 41
      bill_succeeds 9999 (omega arith) refl

abbrev all_of_site : GenerateInvoice
all_of_site = record {
  project_id = some 5;
  billing_client_id = none;
  from = none;
  to = none;
  include_non_billable = false;
  merge_entries = false;
}

site_selected : (select_entries (of_project 5) 1 all_of_site unbilled).0 ≡ ok finished
unfolding select_entries eligible_entries backfill_rates
site_selected = refl

select_entries_sound_example : All (Billable (of_project 5) 1 all_of_site unbilled) finished
select_entries_sound_example =
    select_entries_sound (of_project 5) 1 all_of_site unbilled finished site_selected

abbrev capture : PendingTimeCapture
capture = record {
  id = 60;
  organization_id = 1;
  project_id = 5;
  task_id = none;
  label = "User completed “Logo”";
  completed_by_type = ActorType.by_user;
  completed_by_name = none;
  completed_at = 900000;
  resolved_at = none;
  resolved_time_entry_id = none;
}

abbrev waiting : Store
waiting = record working { captures = capture ∷ [] }

abbrev one_minute : ResolvePendingTimeCapture
one_minute = record { duration_sec = 60; billable = none }

abbrev five_minutes : ResolvePendingTimeCapture
five_minutes = record { duration_sec = 300; billable = some false }

resolves :
    (resolve_pending_capture 60 3 1 one_minute 950000 13 7 waiting).0
    ≡ ok (captured_entry 3 1 one_minute capture (some 6000) 13)
unfolding resolve_pending_capture resolve_transaction insert_entry resolve_rate
resolves = refl

resolve_pending_capture-once_example :
    let t = (resolve_pending_capture 60 3 1 one_minute 950000 13 7 waiting).1 in
    (x : Error) × (resolve_pending_capture 60 4 1 five_minutes 960000 14 8 t ≡ (err x, t))
resolve_pending_capture-once_example =
    resolve_pending_capture-once 60 1 3 4 one_minute five_minutes 950000 13 7 960000 14 8 waiting
      (captured_entry 3 1 one_minute capture (some 6000) 13) ((tt, tt)) resolves
