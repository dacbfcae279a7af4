-- ===== src/Invoices/Changing.antt =====
-- `update` and `remove`, and the task that marks invoices overdue.
pub mod Replacing
use pexlo_portal.Prelude.{
  ℕ, Bool, true, false, not, Option, none, some, List, [], ◌∷◌, ◌++◌, ◌==◌, ◌&&◌, if◌then◌else◌,
  find_first, update_where, delete_where, any, is_some, or_else, ltb, has_key,
}
use Prim.Native.String.{String}
use pexlo_portal.Service.{
  Action, pure, gets, throw_if, or_throw, modify, not_found, bad_request, ◌>>=◌, ◌>>◌,
}
use pexlo_portal.Ledger.{
  Invoice, InvoiceStatus, draft, sent, paid, overdue, cancelled, InvoiceLineItem, TimeEntry, Store,
  invoice_id, update_invoice, invoice_sent,
}
use pexlo_portal.Invoices.Creating.{Lines, add_lines}

-- `where: { id, organizationId: orgId }`
abbrev pub owned : ℕ → ℕ → Invoice → Bool
owned id org i = i.id == id && i.organization_id == org

abbrev pub same_status : InvoiceStatus → InvoiceStatus → Bool
same_status draft draft = true
same_status sent sent = true
same_status paid paid = true
same_status overdue overdue = true
same_status cancelled cancelled = true
same_status _ _ = false

-- `allowedTransitions`
abbrev pub is_allowed : InvoiceStatus → InvoiceStatus → Bool
is_allowed draft sent = true
is_allowed sent paid = true
is_allowed sent overdue = true
is_allowed sent cancelled = true
is_allowed overdue paid = true
is_allowed overdue cancelled = true
is_allowed _ _ = false

-- An outer `none` is a property that the request does not have; `some none` is `null`.
pub record UpdateInvoice : Type 0 where
  pub status : Option InvoiceStatus
  pub line_items : Option Lines
  pub due_date : Option (Option ℕ)
  pub notes : Option (Option String)

-- A request that names the present status asks for no transition.
abbrev pub is_refused : Option InvoiceStatus → InvoiceStatus → Bool
is_refused none old = false
is_refused (some new) old = not (same_status new old) && not (is_allowed old new)

abbrev pub becomes_sent : Option InvoiceStatus → InvoiceStatus → Bool
becomes_sent none old = false
becomes_sent (some new) old = same_status new sent && not (same_status old sent)

abbrev pub changed : UpdateInvoice → Invoice → Invoice
changed dto i = record i {
  status = or_else dto.status i.status;
  due_date = or_else dto.due_date i.due_date;
  notes = or_else dto.notes i.notes;
}

abbrev pub is_line_of : ℕ → InvoiceLineItem → Bool
is_line_of id l = l.invoice_id == id

-- The line is one of these lines.
abbrev pub on_lines : List InvoiceLineItem → Option ℕ → Bool
on_lines lines none = false
on_lines lines (some l) = any (λ (x : InvoiceLineItem). x.id == l) lines

abbrev pub release : TimeEntry → TimeEntry
release e = record e { invoice_line_item_id = none }

-- Deleting lines sets the reference of their time entries to null (`onDelete: SetNull`).
unfoldable pub delete_lines : (InvoiceLineItem → Bool) → Store → Store
delete_lines p s = record s {
  line_items = delete_where p s.line_items;
  entries =
      update_where
        (λ (e : TimeEntry).
          any (λ (l : InvoiceLineItem). p l && on_lines (l ∷ []) e.invoice_line_item_id)
            s.line_items)
        release s.entries;
}

abbrev pub replace_lines : ℕ → Option Lines → Store → Store
replace_lines id none s = s
replace_lines id (some lines) s = add_lines id lines (delete_lines (is_line_of id) s)

unfoldable pub update : ℕ → UpdateInvoice → ℕ → Action Store (Unit {0})
unfolding update_invoice
update id dto org = do
  found ← gets (λ s. find_first (owned id org) s.invoices)
  invoice ← or_throw found not_found
  throw_if (is_refused dto.status invoice.status) bad_request
  modify (λ s. update_invoice id (changed dto) (replace_lines id dto.line_items s))
  modify (λ s.
      if becomes_sent dto.status invoice.status
      then record s { notices = s.notices ++ invoice_sent id ∷ [] }
      else s)

-- The lines of an invoice are deleted with it (`onDelete: Cascade`).
abbrev pub drop_invoice : ℕ → Store → Store
drop_invoice id s =
    let s' = delete_lines (is_line_of id) s in
    record s' { invoices = delete_where (has_key invoice_id id) s'.invoices }

unfoldable pub remove : ℕ → ℕ → Action Store (Unit {0})
remove id org = do
  found ← gets (λ s. find_first (owned id org) s.invoices)
  invoice ← or_throw found not_found
  throw_if (is_some invoice.stripe_payment_intent_id) bad_request
  modify (drop_invoice id)

-- `where: { status: "sent", dueDate: { lt: now } }`
abbrev pub is_late : ℕ → Invoice → Bool
is_late now i = same_status i.status sent && elim i.due_date [ none ↦ false | some d ↦ ltb d now ]

abbrev pub mark_overdue : Invoice → Invoice
mark_overdue i = record i { status = overdue }

unfoldable pub mark_overdue_invoices : ℕ → Store → Store
mark_overdue_invoices now s = record s {
  invoices = update_where (is_late now) mark_overdue s.invoices;
}
