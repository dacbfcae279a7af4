-- ===== src/TimeEntries/Invoicing.antt =====
-- `generateInvoice`: time entries become the line items of a new invoice.
pub mod Grouping
pub mod Billing
pub mod Selection
pub mod Numbered
use pexlo_portal.Prelude.{
  ℕ, ◌+◌, ◌*◌, Bool, true, false, not, Option, none, some, List, [], ◌∷◌, ◌++◌, ◌==◌, ◌&&◌, ◌||◌,
  if◌then◌else◌, find_first, find_many, update_where, any, ltb, leb, is_none, is_some, or_else,
  length, has_key,
}
use Prim.Native.String
use Prim.Native.String.{String}
use pexlo_portal.Service.{
  Action, pure, gets, throw_if, or_throw, modify, transaction, not_found, bad_request,
  unique_violation, ◌>>=◌, ◌>>◌,
}
use pexlo_portal.Ledger.{
  Project, BillingClient, Task, TimeEntry, Invoice, InvoiceLineItem, draft, itemized,
  insert_invoice, Store, entry_id, update_entry, project_of, resolve_rate,
}
use pexlo_portal.TimeEntries.Number.{Text, invoice_number, next_number}

pub record GenerateInvoice : Type 0 where
  pub project_id : Option ℕ
  pub billing_client_id : Option ℕ
  pub from : Option ℕ
  pub to : Option ℕ
  pub include_non_billable : Bool
  pub merge_entries : Bool

-- What the runtime computes: the rounded product of hours and rate, in floating point, and texts.
pub record Amounts : Type 0 where
  pub amount : (seconds rate : ℕ) → ℕ
  pub entry_text : (label : String) (started_at seconds rate : ℕ) → String
  pub merged_text : (target : String) (seconds rate entries : ℕ) → String

-- The project or the billing client to be invoiced; a request names exactly one.
pub data Scope : Type 0 where
  of_project of_client : ℕ → Scope

abbrev pub scope_of : Option ℕ → Option ℕ → Option Scope
scope_of (some p) none = some (of_project p)
scope_of none (some c) = some (of_client c)
scope_of _ _ = none

abbrev pub target_name : Scope → ℕ → Store → Option String
target_name (of_project p) org s = elim (project_of p org s) [ none ↦ none | some q ↦ some q.name ]
target_name (of_client c) org s =
    elim (find_first
      (λ (b : BillingClient). b.id == c && b.organization_id == org && is_none b.archived_at)
      s.billing_clients) [ none ↦ none | some b ↦ some b.name ]

abbrev pub in_scope : Scope → List Project → TimeEntry → Bool
in_scope (of_project p) projects e = e.project_id == p
in_scope (of_client c) projects e =
    any
      (λ (q : Project).
        q.id == e.project_id && elim q.billing_client_id [ none ↦ false | some b ↦ b == c ])
      projects

abbrev pub day_ms : ℕ
day_ms = 24 * 60 * 60 * 1000

-- The day that `to` names is included.
abbrev pub in_days : Option ℕ → Option ℕ → ℕ → Bool
in_days from to t =
    elim from [ none ↦ true | some a ↦ leb a t ]
    && elim to [ none ↦ true | some b ↦ ltb t (b + day_ms) ]

abbrev pub is_eligible : Scope → ℕ → GenerateInvoice → List Project → TimeEntry → Bool
is_eligible scope org dto projects e =
    e.organization_id == org
    && in_scope scope projects e
    && is_none e.invoice_line_item_id
    && is_some e.ended_at
    && is_some e.duration_sec
    && (dto.include_non_billable || e.billable)
    && in_days dto.from dto.to e.started_at

-- `orderBy: { startedAt: "asc" }`; entries that started together stay in the order of the table.
abbrev pub insert_by_start : TimeEntry → List TimeEntry → List TimeEntry
insert_by_start e [] = e ∷ []
insert_by_start e (f ∷ fs) =
    let rest = insert_by_start e fs in
    if ltb f.started_at e.started_at then f ∷ rest else e ∷ f ∷ fs

abbrev pub sort_by_start : List TimeEntry → List TimeEntry
sort_by_start [] = []
sort_by_start (e ∷ es) = insert_by_start e (sort_by_start es)

unfoldable pub eligible_entries : Scope → ℕ → GenerateInvoice → Store → List TimeEntry
eligible_entries scope org dto s =
    sort_by_start (find_many (is_eligible scope org dto s.projects) s.entries)

-- No rate, or the rate 0.
abbrev pub lacks_rate : TimeEntry → Bool
lacks_rate e = elim e.hourly_rate_cents [ none ↦ true | some r ↦ r == 0 ]

abbrev pub positive : Option ℕ → Option ℕ
positive none = none
positive (some r) = if r == 0 then none else some r

abbrev pub missing_rate : ℕ → TimeEntry → Store → Option ℕ
missing_rate org e s =
    if lacks_rate e then positive (resolve_rate org e.user_id e.project_id s) else none

abbrev pub set_rate : ℕ → TimeEntry → TimeEntry
set_rate rate e = record e { hourly_rate_cents = some rate }

-- Entries without a rate get the present one, in the table and in the list.
unfoldable pub backfill_rates : ℕ → List TimeEntry → Store → List TimeEntry × Store
unfolding update_entry
backfill_rates org [] s = ([], s)
backfill_rates org (e ∷ es) s = elim (missing_rate org e s) [
  | none ↦ let (rest, t) = backfill_rates org es s in (e ∷ rest, t)
  | some rate ↦
      let (rest, t) = backfill_rates org es (update_entry e.id (set_rate rate) s) in
      (set_rate rate e ∷ rest, t)
]

abbrev pub last_number : ℕ → List Invoice → Option Text
last_number org [] = none
last_number org (i ∷ is) = elim (last_number org is) [
  | none ↦ if i.organization_id == org then some i.invoice_number else none
  | some t ↦ some t
]

abbrev pub seconds_of : TimeEntry → ℕ
seconds_of e = or_else e.duration_sec 0

abbrev pub rate_of : TimeEntry → ℕ
rate_of e = or_else e.hourly_rate_cents 0

abbrev pub set_line : ℕ → TimeEntry → TimeEntry
set_line line e = record e { invoice_line_item_id = some line }

abbrev pub add_line : ℕ → ℕ → String → ℕ → Store → Store
add_line line invoice description price s = record s {
  line_items =
      s.line_items
      ++ record {
        id = line;
        invoice_id = invoice;
        description = description;
        quantity = 1;
        unit_price = price;
      }
        ∷ [];
}

abbrev pub task_title : Option ℕ → Store → Option String
task_title none s = none
task_title (some id) s = elim (find_first (λ (t : Task). t.id == id) s.tasks) [
  | none ↦ none
  | some t ↦ some t.title
]

abbrev pub project_name : ℕ → Store → String
project_name id s = elim (find_first (λ (p : Project). p.id == id) s.projects) [
  | none ↦ ""
  | some p ↦ p.name
]

-- `e.description ?? e.task?.title ?? "Time entry"`, after the project's name for a client.
abbrev pub label : Scope → TimeEntry → Store → String
label (of_project p) e s = or_else e.description (or_else (task_title e.task_id s) "Time entry")
label (of_client c) e s =
    String.◌++◌ (project_name e.project_id s)
      (String.◌++◌ ": " (or_else e.description (or_else (task_title e.task_id s) "Time entry")))

-- The entries of one rate.
pub record Group : Type 0 where
  pub rate : ℕ
  pub entry_ids : List ℕ
  pub total_sec : ℕ

-- `byRate`, a map that keeps the order in which the rates first came.
abbrev pub add_to_groups : TimeEntry → List Group → List Group
add_to_groups e [] =
    record { rate = rate_of e; entry_ids = e.id ∷ []; total_sec = seconds_of e } ∷ []
add_to_groups e (g ∷ gs) =
    let rest = add_to_groups e gs in
    if g.rate == rate_of e
    then record g { entry_ids = g.entry_ids ++ e.id ∷ []; total_sec = g.total_sec + seconds_of e }
      ∷ gs
    else g ∷ rest

unfoldable pub group_by_rate : List TimeEntry → List Group → List Group
group_by_rate [] gs = gs
group_by_rate (e ∷ es) gs = group_by_rate es (add_to_groups e gs)

-- `new_line` gives the identifier that the database generates for an entry's or a rate's line.
module _ (lib : Amounts) (scope : Scope) (target : String) (invoice : ℕ) (new_line : ℕ → ℕ) where
  unfoldable pub bill_groups : List Group → Store → Store
  bill_groups [] s = s
  bill_groups (g ∷ gs) s =
      let s' =
        add_line (new_line g.rate) invoice
          (lib.merged_text target g.total_sec g.rate (length g.entry_ids))
          (lib.amount g.total_sec g.rate) s in
      bill_groups gs (record s' {
        entries =
            update_where (λ (e : TimeEntry). any (λ i. i == e.id) g.entry_ids)
              (set_line (new_line g.rate)) s'.entries;
      })

  unfoldable pub bill_each : List TimeEntry → Store → Store
  unfolding update_entry
  bill_each [] s = s
  bill_each (e ∷ es) s = bill_each es (
      update_entry e.id (set_line (new_line e.id)) (
        add_line (new_line e.id) invoice
          (lib.entry_text (label scope e s) e.started_at (seconds_of e) (rate_of e))
          (lib.amount (seconds_of e) (rate_of e)) s))

abbrev pub project_in : Scope → Option ℕ
project_in (of_project p) = some p
project_in (of_client c) = none

abbrev pub client_in : Scope → Option ℕ
client_in (of_project p) = none
client_in (of_client c) = some c

abbrev pub draft_invoice : Scope → ℕ → ℕ → Text → Invoice
draft_invoice scope org invoice number = record {
  id = invoice;
  invoice_number = number;
  status = draft;
  type = itemized;
  due_date = none;
  notes = none;
  amount = none;
  uploaded_file_id = none;
  project_id = project_in scope;
  external_reference = none;
  billing_client_id = client_in scope;
  organization_id = org;
  stripe_checkout_session_id = none;
  stripe_payment_intent_id = none;
  paid_at = none;
  paid_amount = none;
}

-- The transaction, for entries that were read before it.
unfoldable pub bill :
    Amounts → Scope → String → ℕ → Bool → List TimeEntry → ℕ → (ℕ → ℕ) → Action Store ℕ
unfolding insert_invoice
bill lib scope target org merge entries invoice new_line =
    transaction (λ before after. before)
      (do
        invoices ← gets (λ s. s.invoices)
        let number = invoice_number (next_number (last_number org invoices))
        insert_invoice (draft_invoice scope org invoice number)
        modify (
            if merge
            then bill_groups lib scope target invoice new_line (group_by_rate entries [])
            else bill_each lib scope target invoice new_line entries)
        pure invoice)

-- What comes before the transaction: the entries to be billed, each with a rate.
unfoldable pub select_entries : Scope → ℕ → GenerateInvoice → Action Store (List TimeEntry)
select_entries scope org dto = do
  found ← gets (eligible_entries scope org dto)
  throw_if (length found == 0) bad_request
  entries ← gets (λ s. (backfill_rates org found s).0)
  modify (λ s. (backfill_rates org found s).1)
  throw_if (any lacks_rate entries) bad_request
  pure entries

unfoldable pub generate_invoice : Amounts → ℕ → GenerateInvoice → ℕ → (ℕ → ℕ) → Action Store ℕ
generate_invoice lib org dto invoice new_line = do
  scope ← or_throw (scope_of dto.project_id dto.billing_client_id) bad_request
  name ← gets (target_name scope org)
  target ← or_throw name not_found
  entries ← select_entries scope org dto
  bill lib scope target org dto.merge_entries entries invoice new_line
