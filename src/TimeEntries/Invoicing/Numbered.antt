-- ===== src/TimeEntries/Invoicing/Numbered.antt =====
-- The number of the invoice that the transaction of `generateInvoice` makes.
use pexlo_portal.Prelude.{
  ℕ, ◌<◌, ◌+◌, ◌≡◌, refl, Bool, some, List, [], ◌∷◌, ◌++◌, arith, Bool-cases, inl, inr,
}
use Prim.Native.String.{String}
use pexlo_portal.Service.{ok}
use pexlo_portal.Ledger.{TimeEntry, Store}
use pexlo_portal.TimeEntries.Double.{safe, to_double, to_double-exact}
use pexlo_portal.TimeEntries.Number.{Text, invoice_number, next_number}
use pexlo_portal.TimeEntries.Number.RoundTrip.{match_number-invoice_number}
use pexlo_portal.TimeEntries.Invoicing.{
  Amounts, Scope, Group, bill, bill_each, bill_groups, group_by_rate, draft_invoice, last_number,
}

module _ (lib : Amounts) (scope : Scope) (target : String) (invoice : ℕ) (new_line : ℕ → ℕ) where
  bill_each-invoices :
      (es : List TimeEntry) (s : Store)
      → (bill_each lib scope target invoice new_line es s).invoices ≡ s.invoices
  unfolding bill_each
  bill_each-invoices [] s = refl
  bill_each-invoices (e ∷ es) s = bill_each-invoices es _

  bill_groups-invoices :
      (gs : List Group) (s : Store)
      → (bill_groups lib scope target invoice new_line gs s).invoices ≡ s.invoices
  unfolding bill_groups
  bill_groups-invoices [] s = refl
  bill_groups-invoices (g ∷ gs) s = bill_groups-invoices gs _

next_number-invoice_number : (n : ℕ) → n < safe → next_number (some (invoice_number n)) ≡ n + 1
unfolding next_number
next_number-invoice_number n h =
    let exact : to_double (n + 1) ≡ n + 1 = to_double-exact (n + 1) (omega arith) in
    rw (match_number-invoice_number n (omega arith), next_number) exact

module _ (lib : Amounts) (scope : Scope) (target : String) (org : ℕ) (merge : Bool)
    (entries : List TimeEntry) (invoice : ℕ) (new_line : ℕ → ℕ) (s : Store) (k : ℕ)
    (succeeds : (bill lib scope target org merge entries invoice new_line s).0 ≡ ok k) where
  pub bill-invoices :
      (bill lib scope target org merge entries invoice new_line s).1.invoices
      ≡ s.invoices
        ++ draft_invoice scope org invoice
            (invoice_number (next_number (last_number org s.invoices)))
          ∷ []
  unfolding bill
  bill-invoices =
      let number : Text = invoice_number (next_number (last_number org s.invoices)) in
      let t : Store = record s {
        invoices = s.invoices ++ draft_invoice scope org invoice number ∷ [];
      } in
      elim (Bool-cases merge) [
        | inl y ↦ ground (
          arith,
          bill_groups-invoices lib scope target invoice new_line (group_by_rate entries []) t,
        )
        | inr n ↦ ground (arith, bill_each-invoices lib scope target invoice new_line entries t)
      ]

  -- A billing transaction that succeeds adds one invoice, a draft; if the last invoice of the
  -- organisation has the number `n`, which is less than 2 ** 53, the new one has the number `n + 1`.
  pub bill-number :
      (n : ℕ)
      → n < safe
      → last_number org s.invoices ≡ some (invoice_number n)
      → (bill lib scope target org merge entries invoice new_line s).1.invoices
        ≡ s.invoices ++ draft_invoice scope org invoice (invoice_number (n + 1)) ∷ []
  bill-number n h last =
      let next : next_number (last_number org s.invoices) ≡ n + 1 =
        rw last (next_number-invoice_number n h) in
      rw next at bill-invoices
