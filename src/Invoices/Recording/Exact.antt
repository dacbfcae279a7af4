-- ===== src/Invoices/Recording/Exact.antt =====
-- What a recorded invoice leaves in the tables.
use pexlo_portal.Prelude.{
  ℕ, ◌≡◌, ◌∙◌, inl, inr, refl, sym, ap, subst, Bool, true, false, Option, none, some, List, [], ◌∷◌,
  ◌++◌, arith, find_many, update_where, count, any, length, is_some, is_none, Bool-cases,
}
use pexlo_portal.Service.{
  Action, Result, Error, ok, err, gets, modify, pure, ◌>>=◌, ◌>>◌, >>=-ok, transaction-ok,
  transaction-err,
}
use pexlo_portal.Ledger.{Invoice, TimeEntry, Store, insert_invoice}
use pexlo_portal.TimeEntries.Number.{Text}
use pexlo_portal.Invoices.Creating.{number_after}
use pexlo_portal.Invoices.Recording.{
  RecordInvoice, record_transaction, check_client, check_file, check_entries, bill_entries,
  recorded_invoice, recorded_line, requested, unbilled, put_line,
}

-- The tables that the checks do not touch.
pub record SameBooks (s t : Store) : Type 0 where
  pub same_invoices : t.invoices ≡ s.invoices
  pub same_lines : t.line_items ≡ s.line_items
  pub same_entries : t.entries ≡ s.entries

check_client-SameBooks : (o : Option ℕ) (org : ℕ) (s : Store) → SameBooks s (check_client o org s).1
unfolding check_client
check_client-SameBooks none org s = record {
  same_invoices = refl;
  same_lines = refl;
  same_entries = refl;
}
check_client-SameBooks (some id) org s = ground arith

check_file-SameBooks :
    (o : Option ℕ) (dto : RecordInvoice) (org : ℕ) (s : Store)
    → SameBooks s (check_file o dto org s).1
unfolding check_file
check_file-SameBooks none dto org s = record {
  same_invoices = refl;
  same_lines = refl;
  same_entries = refl;
}
check_file-SameBooks (some id) dto org s = ground arith

-- None of the entries that are asked for is on an invoice.
abbrev pub AllUnbilled : List ℕ → ℕ → List TimeEntry → Type 0
AllUnbilled ids org es =
    any (λ (e : TimeEntry). is_some e.invoice_line_item_id) (find_many (requested ids org) es)
    ≡ false

check_entries_sound :
    (ids : List ℕ) (org : ℕ) (s : Store)
    → ((check_entries ids org s).1 ≡ s)
      × ((check_entries ids org s).0 ≡ ok tt → AllUnbilled ids org s.entries)
unfolding check_entries
check_entries_sound ids org s = (ground arith, λ h. ground arith)

insert_invoice-ok :
    (x : Invoice) (s : Store)
    → (insert_invoice x s).0 ≡ ok tt
    → (insert_invoice x s).1 ≡ record s { invoices = s.invoices ++ x ∷ [] }
unfolding insert_invoice
insert_invoice-ok x s h = ground arith

unbilled-requested :
    (ids : List ℕ) (org line : ℕ) (es : List TimeEntry)
    → AllUnbilled ids org es
    → (update_where (unbilled ids org) (put_line line) es
        ≡ update_where (requested ids org) (put_line line) es)
      × (count (unbilled ids org) es ≡ count (requested ids org) es)
unbilled-requested ids org line [] h = (refl, refl)
unbilled-requested ids org line (e ∷ es) h = elim (Bool-cases (requested ids org e)) [
  | inl asked ↦
      let here : is_some e.invoice_line_item_id ≡ false = ground arith in
      let open_here : is_none e.invoice_line_item_id ≡ true = ground arith in
      let there : AllUnbilled ids org es = ground arith in
      let (a, b) = unbilled-requested ids org line es there in (ground arith, ground arith)
  | inr other ↦
      let there : AllUnbilled ids org es = ground arith in
      let (a, b) = unbilled-requested ids org line es there in (ground arith, ground arith)
]

bill_entries-ok :
    (ids : List ℕ) (org line : ℕ) (s : Store)
    → (bill_entries ids org line s).0 ≡ ok tt
    → ((bill_entries ids org line s).1
        ≡ record s { entries = update_where (unbilled ids org) (put_line line) s.entries })
      × (count (unbilled ids org) s.entries ≡ length ids)
unfolding bill_entries
bill_entries-ok ids org line s h = (ground arith, ground arith)

module _ (before : Text → Text → Bool) (dto : RecordInvoice) (file : Option ℕ)
    (org new_id new_line : ℕ) where
  -- The books after the invoice has been recorded.
  abbrev pub Recorded : Store → Store → Type 0
  Recorded s t =
      (t.invoices
        ≡ s.invoices ++ recorded_invoice dto file org (number_after before org s) new_id ∷ [])
      × (t.line_items ≡ s.line_items ++ recorded_line dto new_id new_line ∷ [])
      × (t.entries ≡ update_where (requested dto.time_entry_ids org) (put_line new_line) s.entries)
      × (count (requested dto.time_entry_ids org) s.entries ≡ length dto.time_entry_ids)

  put_recorded : Store → Store
  put_recorded s = record s { line_items = s.line_items ++ recorded_line dto new_id new_line ∷ [] }

  book : Invoice → Action Store Invoice
  book x = do
    insert_invoice x
    modify put_recorded
    bill_entries dto.time_entry_ids org new_line
    pure x

  book-ok :
      (x y : Invoice) (s : Store)
      → (book x s).0 ≡ ok y
      → ((book x s).1.invoices ≡ s.invoices ++ x ∷ [])
        × ((book x s).1.line_items ≡ s.line_items ++ recorded_line dto new_id new_line ∷ [])
        × ((book x s).1.entries
            ≡ update_where (unbilled dto.time_entry_ids org) (put_line new_line) s.entries)
        × (count (unbilled dto.time_entry_ids org) s.entries ≡ length dto.time_entry_ids)
  unfolding book put_recorded
  book-ok x y s h =
      let (u, h1, k1, e1) =
        >>=-ok (insert_invoice x)
          (λ _. modify put_recorded >> bill_entries dto.time_entry_ids org new_line >> pure x) s y
          h in
      let put = insert_invoice-ok x s h1 in
      let t : Store = put_recorded (insert_invoice x s).1 in
      let (v, h2, k2, e2) =
        >>=-ok (bill_entries dto.time_entry_ids org new_line) (λ _. pure x) t y k1 in
      let (billed, counted) = bill_entries-ok dto.time_entry_ids org new_line t h2 in
      (ground arith, ground arith, ground arith, ground arith)

  numbered : Action Store Invoice
  unfolding book put_recorded
  numbered = do
    number ← gets (number_after before org)
    book (recorded_invoice dto file org number new_id)

  checked_entries : Action Store Invoice
  unfolding numbered
  checked_entries = check_entries dto.time_entry_ids org >> numbered

  checked_file : Action Store Invoice
  unfolding checked_entries
  checked_file = check_file file dto org >> checked_entries

  body : Action Store Invoice
  unfolding checked_file
  body = check_client dto.billing_client_id org >> checked_file

  number_after-SameBooks :
      (s t : Store) → SameBooks s t → number_after before org t ≡ number_after before org s
  number_after-SameBooks s t h = rw h.same_invoices

  body-Recorded :
      (y : Invoice) (s : Store)
      → (body s).0 ≡ ok y
      → Recorded s (body s).1 × AllUnbilled dto.time_entry_ids org s.entries
  unfolding body
  body-Recorded y s h =
      let ids : List ℕ = dto.time_entry_ids in
      let (_, _, h1, e1) =
        >>=-ok (check_client dto.billing_client_id org) (λ _. checked_file) s y h in
      let t : Store = (check_client dto.billing_client_id org s).1 in
      let (_, _, h2, e2) = >>=-ok (check_file file dto org) (λ _. checked_entries) t y h1 in
      let u : Store = (check_file file dto org t).1 in
      let (_, fine, h3, e3) = >>=-ok (check_entries ids org) (λ _. numbered) u y h2 in
      let (same, none_billed) = check_entries_sound ids org u in
      let x : Invoice = recorded_invoice dto file org (number_after before org u) new_id in
      let h4 : (book x u).0 ≡ ok y =
        subst
          (λ v.
            (book (recorded_invoice dto file org (number_after before org v) new_id) v).0 ≡ ok y)
          same h3 in
      let end : body s ≡ book x u =
        e1
        ∙ e2
        ∙ e3
        ∙ ap (λ v. book (recorded_invoice dto file org (number_after before org v) new_id) v)
            same in
      let (a, b, c, d) = book-ok x y u h4 in
      let k = check_client-SameBooks dto.billing_client_id org s in
      let l = check_file-SameBooks file dto org t in
      let free : AllUnbilled ids org s.entries =
        subst (AllUnbilled ids org) (l.same_entries ∙ k.same_entries) (none_billed fine) in
      let (as_asked, as_many) = unbilled-requested ids org new_line s.entries free in
      let lines : u.line_items ≡ s.line_items = l.same_lines ∙ k.same_lines in
      let entries : u.entries ≡ s.entries = l.same_entries ∙ k.same_entries in
      let invoices : u.invoices ≡ s.invoices = l.same_invoices ∙ k.same_invoices in
      (
        rw end (
          a
              ∙ ap (λ v. v ++ x ∷ []) invoices
              ∙ ap (λ v. s.invoices ++ recorded_invoice dto file org v new_id ∷ [])
                  (number_after-SameBooks t u l ∙ number_after-SameBooks s t k),
          b ∙ ap (λ v. v ++ recorded_line dto new_id new_line ∷ []) lines,
          c ∙ ap (update_where (unbilled ids org) (put_line new_line)) entries ∙ as_asked,
          sym as_many ∙ ap (count (unbilled ids org)) (sym entries) ∙ d,
        ),
        free,
      )

  -- Recording an invoice with success adds one draft invoice with the next number and one line
  -- with the whole amount; the entries of the request, as many as it lists, all of which were on no
  -- invoice, are on the new line, and all other entries are as they were.
  pub record_transaction-exact :
      (y : Invoice) (s : Store)
      → (record_transaction before dto file org new_id new_line s).0 ≡ ok y
      → Recorded s (record_transaction before dto file org new_id new_line s).1
        × AllUnbilled dto.time_entry_ids org s.entries
  unfolding record_transaction body
  record_transaction-exact y s h =
      let (fine, e) = transaction-ok (λ (start end : Store). start) (λ t. body t) s y h in
      let (r, free) = body-Recorded y s fine in
      (subst (λ (p : Result Invoice × Store). Recorded s p.1) (sym e) r, free)

  -- Recording an invoice that fails, at whatever point, leaves every table as it was.
  pub record_transaction-err :
      {e : Error} (s : Store)
      → (record_transaction before dto file org new_id new_line s).0 ≡ err e
      → (record_transaction before dto file org new_id new_line s).1 ≡ s
  unfolding record_transaction body
  record_transaction-err {e} s h =
      transaction-err (λ (start end : Store). start) (λ t. body t) s e h
