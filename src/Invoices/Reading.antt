-- ===== src/Invoices/Reading.antt =====
-- Totals and statistics, and the invoices that a client may see.
pub mod Totals
pub mod Mine
use pexlo_portal.Prelude.{
  ℕ, ◌+◌, ◌*◌, Bool, true, false, not, Option, none, some, List, [], ◌∷◌, ◌++◌, ◌==◌, ◌&&◌,
  if◌then◌else◌, find_first, find_many, any, length, is_some, or_else, same_option,
}
use pexlo_portal.Service.{Action, pure, gets, throw_if, or_throw, not_found, forbidden, ◌>>=◌, ◌>>◌}
use pexlo_portal.Ledger.{
  Invoice, InvoiceType, itemized, uploaded, external, InvoiceStatus, draft, sent, paid, overdue,
  cancelled, InvoiceLineItem, ProjectClient, Project, Store,
}
use pexlo_portal.Invoices.Changing.{owned, is_line_of, same_status}

abbrev pub lines_of : ℕ → Store → List InvoiceLineItem
lines_of id s = find_many (is_line_of id) s.line_items

abbrev pub sum_lines : List InvoiceLineItem → ℕ
sum_lines [] = 0
sum_lines (l ∷ ls) = l.quantity * l.unit_price + sum_lines ls

abbrev pub is_uploaded : InvoiceType → Bool
is_uploaded uploaded = true
is_uploaded _ = false

-- `calculateInvoiceTotal`
unfoldable pub calculate_invoice_total : Invoice → List InvoiceLineItem → ℕ
calculate_invoice_total i lines =
    if is_uploaded i.type
    then elim i.amount [ none ↦ sum_lines lines | some a ↦ a ]
    else sum_lines lines

-- The rows of an invoice in `LEFT JOIN "invoice_line_item"`: one for each line, and one if it has
-- none. The amount of an uploaded invoice stands in each of its rows.
abbrev pub sum_rows : Invoice → List InvoiceLineItem → ℕ
sum_rows i [] = 0
sum_rows i (l ∷ ls) =
    (if is_uploaded i.type then or_else i.amount 0 else l.quantity * l.unit_price) + sum_rows i ls

abbrev pub joined_amount : Invoice → List InvoiceLineItem → ℕ
joined_amount i [] = if is_uploaded i.type then or_else i.amount 0 else 0
joined_amount i (l ∷ ls) = sum_rows i (l ∷ ls)

pub record Stats : Type 0 where
  pub total_invoices : ℕ
  pub total_amount : ℕ
  pub paid_amount : ℕ
  pub outstanding_amount : ℕ

-- `where`: the organisation's invoices, or those of one of its projects.
abbrev pub in_stats : ℕ → Option ℕ → Invoice → Bool
in_stats org none i = i.organization_id == org
in_stats org (some p) i = i.organization_id == org && same_option i.project_id (some p)

-- `GROUP BY i.status`: the sum over the invoices of one status.
abbrev pub status_total : InvoiceStatus → List Invoice → Store → ℕ
status_total st [] s = 0
status_total st (i ∷ is) s =
    let rest = status_total st is s in
    if same_status i.status st then joined_amount i (lines_of i.id s) + rest else rest

unfoldable pub get_stats : ℕ → Option ℕ → Store → Stats
get_stats org project s =
    let mine = find_many (in_stats org project) s.invoices in
    let total = λ (st : InvoiceStatus). status_total st mine s in
    record {
      total_invoices = length mine;
      total_amount = total draft + total sent + total paid + total overdue + total cancelled;
      paid_amount = total paid;
      outstanding_amount = total sent + total overdue;
    }

-- `where` of `findMine`: invoices of the client's projects that are neither drafts nor cancelled.
abbrev pub is_mine : ℕ → ℕ → Store → Invoice → Bool
is_mine user org s i =
    i.organization_id == org
    && any
        (λ (c : ProjectClient).
          c.user_id == user
          && any (λ (p : Project). p.id == c.project_id && p.organization_id == org) s.projects
          && same_option i.project_id (some c.project_id))
        s.clients
    && not (same_status i.status draft)
    && not (same_status i.status cancelled)

unfoldable pub find_one_mine : ℕ → ℕ → ℕ → Action Store Invoice
find_one_mine id user org = do
  found ← gets (λ s. find_first (owned id org) s.invoices)
  invoice ← or_throw found not_found
  project ← or_throw invoice.project_id forbidden
  assigned ← gets (λ s.
      find_first (λ (c : ProjectClient). c.project_id == project && c.user_id == user) s.clients)
  throw_if (not (is_some assigned)) forbidden
  pure invoice
