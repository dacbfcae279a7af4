-- ===== src/Ledger.antt =====
-- The tables of packages/database/prisma/schema.prisma that time tracking, invoices and payments read
-- and write. Identifiers are numbers that are only compared; a date is its milliseconds.
mod Work
mod Bills
pub use Work.*
pub use Bills.*
use pexlo_portal.Prelude.{
  ℕ, ◌+◌, ◌-◌, ◌/◌, Bool, Option, none, some, List, [], ◌∷◌, ◌++◌, ◌==◌, ◌&&◌, is_none, true, false,
  first_some, find_first, update_where, has_key, any,
}
use Prim.Native.String.{String}
use pexlo_portal.Service.{Action, throw_if, gets, modify, unique_violation, ◌>>=◌, ◌>>◌}

-- Invoices stand in the order of their creation.
pub record Store : Type 0 where
  pub projects : List Project
  pub billing_clients : List BillingClient
  pub members : List Member
  pub tasks : List Task
  pub options : List DecisionOption
  pub votes : List DecisionVote
  pub entries : List TimeEntry
  pub logs : List TimeEntryLog
  pub captures : List PendingTimeCapture
  pub invoices : List Invoice
  pub line_items : List InvoiceLineItem
  pub files : List File
  pub clients : List ProjectClient
  pub settings : List SystemSettings
  pub notices : List Notice

-- `where: { userId, organizationId: orgId, endedAt: null }`
abbrev pub is_running : ℕ → ℕ → TimeEntry → Bool
is_running org user e = e.organization_id == org && e.user_id == user && is_none e.ended_at

abbrev pub entry_id : TimeEntry → ℕ
entry_id e = e.id

-- `timeEntry.update({ where: { id }, data })`
unfoldable pub update_entry : ℕ → (TimeEntry → TimeEntry) → Store → Store
update_entry id f s = record s { entries = update_where (has_key entry_id id) f s.entries }

-- `timeEntry.create`, under the partial unique index "time_entry_one_running_per_user".
unfoldable pub insert_entry : TimeEntry → Action Store (Unit {0})
insert_entry e = do
  taken ← gets (λ s. any (is_running e.organization_id e.user_id) s.entries)
  throw_if (is_none e.ended_at && taken) unique_violation
  modify (λ s. record s { entries = s.entries ++ e ∷ [] })

-- `Math.max(0, Math.round((to - from) / 1000))`: the subtraction stops at 0.
abbrev pub seconds_between : ℕ → ℕ → ℕ
seconds_between from to = (to - from + 500) / 1000

abbrev pub project_of : ℕ → ℕ → Store → Option Project
project_of id org s =
    find_first (λ (p : Project). p.id == id && p.organization_id == org) s.projects

abbrev pub rate_of_client : ℕ → Option Project → Store → Option ℕ
rate_of_client org none s = none
rate_of_client org (some p) s = elim p.billing_client_id [
  | none ↦ none
  | some c ↦
      elim (find_first (λ (b : BillingClient). b.id == c && b.organization_id == org)
        s.billing_clients) [ none ↦ none | some b ↦ b.default_hourly_rate_cents ]
]

abbrev pub rate_of_member : ℕ → ℕ → Store → Option ℕ
rate_of_member org user s =
    elim (find_first (λ (m : Member). m.organization_id == org && m.user_id == user) s.members) [
      | none ↦ none
      | some m ↦ m.hourly_rate_cents
    ]

abbrev pub rate_of_project : Option Project → Option ℕ
rate_of_project none = none
rate_of_project (some p) = p.hourly_rate_cents

-- The project's rate, else its client's, else the member's.
unfoldable pub resolve_rate : ℕ → ℕ → ℕ → Store → Option ℕ
resolve_rate org user project s =
    let p = project_of project org s in
    first_some (rate_of_project p) (first_some (rate_of_client org p s) (rate_of_member org user s))

abbrev pub same_text : List ℕ → List ℕ → Bool
same_text [] [] = true
same_text (a ∷ xs) (b ∷ ys) = a == b && same_text xs ys
same_text _ _ = false

abbrev pub is_taken : ℕ → List ℕ → Store → Bool
is_taken org number s =
    any (λ (j : Invoice). j.organization_id == org && same_text j.invoice_number number) s.invoices

-- `invoice.create`, under the unique index on the organisation and the number.
unfoldable pub insert_invoice : Invoice → Action Store (Unit {0})
insert_invoice i = do
  taken ← gets (is_taken i.organization_id i.invoice_number)
  throw_if taken unique_violation
  modify (λ s. record s { invoices = s.invoices ++ i ∷ [] })

abbrev pub invoice_id : Invoice → ℕ
invoice_id i = i.id

-- `invoice.update({ where: { id }, data })`
unfoldable pub update_invoice : ℕ → (Invoice → Invoice) → Store → Store
update_invoice id f s = record s { invoices = update_where (has_key invoice_id id) f s.invoices }
