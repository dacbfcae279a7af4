-- ===== src/Invoices/Reading/Totals.antt =====
-- The statistics and the totals of single invoices.
use pexlo_portal.Prelude.{ℕ, ◌+◌, ◌≡◌, ◌≤◌, true, some, List, [], ◌∷◌, find_many, length}
use pexlo_portal.Ledger.{Invoice, InvoiceStatus, Store}
use pexlo_portal.Invoices.Changing.{same_status}
use pexlo_portal.Invoices.Reading.{lines_of, is_uploaded, calculate_invoice_total}

-- An uploaded invoice has an amount and at most one line.
abbrev pub SingleAmount : Store → Invoice → Type 0
SingleAmount s i =
    is_uploaded i.type ≡ true → ((a : ℕ) × (i.amount ≡ some a)) × (length (lines_of i.id s) ≤ 1)

abbrev pub totals : List Invoice → Store → ℕ
totals [] s = 0
totals (i ∷ is) s = calculate_invoice_total i (lines_of i.id s) + totals is s

abbrev pub with_status : InvoiceStatus → List Invoice → List Invoice
with_status st is = find_many (λ (i : Invoice). same_status i.status st) is
