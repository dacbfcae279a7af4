-- ===== src/Payments/Operations.antt =====
-- Each operation on invoices, as a change of their table.
use pexlo_portal.Prelude.{
  ℕ, ◌≡◌, ◌≢◌, ◌⊎◌, inl, inr, refl, subst, Bool, false, Option, none, some, List, [], ◌∷◌, ◌++◌,
  arith, find_first, update_where, delete_where, has_key, Keyed, row_by_key, find_first_sound, All,
  Bool-cases, Option-cases, or_else,
}
use pexlo_portal.Ledger.{
  Invoice, InvoiceStatus, draft, sent, paid, overdue, cancelled, Store, invoice_id, insert_invoice,
}
use pexlo_portal.TimeEntries.Number.{Text}
use pexlo_portal.Invoices.Creating.{
  CreateInvoice, CreateUploadedInvoice, create_once, create_uploaded_once, check_project,
  itemized_invoice, uploaded_invoice, number_after,
}
use pexlo_portal.Invoices.Changing.{
  UpdateInvoice, update, remove, mark_overdue_invoices, owned, changed, is_refused, replace_lines,
  delete_lines, is_late, mark_overdue,
}
use pexlo_portal.Payments.Changes.{Change, kept, added, rewritten, removed, KeepsPayment}

-- An invoice that is put in the table, or refused for its number.
insert_invoice-invoices :
    (x : Invoice) (s : Store)
    → ((insert_invoice x s).1.invoices ≡ s.invoices)
      ⊎ ((insert_invoice x s).1.invoices ≡ s.invoices ++ x ∷ [])
unfolding insert_invoice
insert_invoice-invoices x s = ground arith

module _ (before : Text → Text → Bool) (org new_id : ℕ) (s : Store)
    (fresh : All (λ (y : Invoice). y.id ≢ new_id) s.invoices) where
  create_once-invoices :
      (dto : CreateInvoice)
      → ((create_once before dto org new_id s).1.invoices ≡ s.invoices)
        ⊎ ((create_once before dto org new_id s).1.invoices
            ≡ s.invoices ++ itemized_invoice dto org (number_after before org s) new_id ∷ [])
  unfolding create_once check_project insert_invoice
  create_once-invoices dto = ground arith

  pub create_once-Change :
      (dto : CreateInvoice) → Change s.invoices (create_once before dto org new_id s).1.invoices
  create_once-Change dto = elim (create_once-invoices dto) [
    | inl e ↦ rw e kept
    | inr e ↦ rw e (added (itemized_invoice dto org (number_after before org s) new_id) fresh)
  ]

  create_uploaded_once-invoices :
      (dto : CreateUploadedInvoice) (file : ℕ)
      → ((create_uploaded_once before dto file org new_id s).1.invoices ≡ s.invoices)
        ⊎ ((create_uploaded_once before dto file org new_id s).1.invoices
            ≡ s.invoices ++ uploaded_invoice dto file org (number_after before org s) new_id ∷ [])
  unfolding create_uploaded_once check_project insert_invoice
  create_uploaded_once-invoices dto file = ground arith

  pub create_uploaded_once-Change :
      (dto : CreateUploadedInvoice) (file : ℕ)
      → Change s.invoices (create_uploaded_once before dto file org new_id s).1.invoices
  create_uploaded_once-Change dto file = elim (create_uploaded_once-invoices dto file) [
    | inl e ↦ rw e kept
    | inr e ↦ rw e (added (uploaded_invoice dto file org (number_after before org s) new_id) fresh)
  ]

changed-KeepsPayment :
    (dto : UpdateInvoice) (x : Invoice)
    → is_refused dto.status x.status ≡ false
    → KeepsPayment x (changed dto x)
changed-KeepsPayment dto x fine is_paid = record {
  still_paid = stays dto.status x.status is_paid fine;
  same_intent = refl;
  same_amount = refl;
  same_time = refl;
}
  where
    stays :
        (o : Option InvoiceStatus) (st : InvoiceStatus)
        → st ≡ paid
        → is_refused o st ≡ false
        → or_else o st ≡ paid
    stays none st e f = e
    stays (some draft) st e f = ground arith
    stays (some sent) st e f = ground arith
    stays (some paid) st e f = refl
    stays (some overdue) st e f = ground arith
    stays (some cancelled) st e f = ground arith

replace_lines-invoices :
    (id : ℕ) (o : Option (List _)) (s : Store) → (replace_lines id o s).invoices ≡ s.invoices
unfolding delete_lines
replace_lines-invoices id none s = refl
replace_lines-invoices id (some ls) s = refl

module _ (id org : ℕ) (s : Store) (keyed : Keyed invoice_id s.invoices) where
  by_owned :
      (x y : Invoice)
      → find_first (owned id org) s.invoices ≡ some x
      → find_first (has_key invoice_id id) s.invoices ≡ some y
      → x ≡ y
  by_owned x y e k =
      let row = row_by_key invoice_id (owned id org) s.invoices x keyed e in
      let same : x.id ≡ id = ground (arith, find_first_sound (owned id org) s.invoices x e) in
      let row' : find_first (has_key invoice_id id) s.invoices ≡ some x =
        subst (λ k. find_first (has_key invoice_id k) s.invoices ≡ some x) same row in
      cc

  update-invoices :
      (dto : UpdateInvoice)
      → ((update id dto org s).1.invoices ≡ s.invoices)
        ⊎ ((x : Invoice) × (find_first (owned id org) s.invoices ≡ some x)
            × (is_refused dto.status x.status ≡ false)
            × ((update id dto org s).1.invoices
                ≡ update_where (has_key invoice_id id) (changed dto) s.invoices))
  unfolding update
  update-invoices dto = elim (Option-cases (find_first (owned id org) s.invoices)) [
    | inl e ↦ inl (ground arith)
    | inr (x, e) ↦ elim (Bool-cases (is_refused dto.status x.status)) [
      | inl no_way ↦ inl (ground arith)
      | inr fine ↦ inr (x, e, fine, ground (arith, replace_lines-invoices id dto.line_items s))
    ]
  ]

  pub update-Change : (dto : UpdateInvoice) → Change s.invoices (update id dto org s).1.invoices
  update-Change dto = elim (update-invoices dto) [
    | inl e ↦ rw e kept
    | inr (x, found, fine, e) ↦ rw e (
        rewritten (has_key invoice_id id) (changed dto) (λ z. refl)
          (λ i z row hit.
            let here : i ≡ id =
              ground (arith, find_first_sound (has_key invoice_id i) s.invoices z row) in
            let same : x ≡ z = by_owned x z found (rw here at row) in
            changed-KeepsPayment dto z
              (subst (λ (w : Invoice). is_refused dto.status w.status ≡ false) same fine)))
  ]

  remove-invoices :
      ((remove id org s).1.invoices ≡ s.invoices)
      ⊎ ((x : Invoice) × (find_first (owned id org) s.invoices ≡ some x)
          × (x.stripe_payment_intent_id ≡ none)
          × ((remove id org s).1.invoices ≡ delete_where (has_key invoice_id id) s.invoices))
  unfolding remove delete_lines
  remove-invoices = elim (Option-cases (find_first (owned id org) s.invoices)) [
    | inl e ↦ inl (ground arith)
    | inr (x, e) ↦ elim (Option-cases x.stripe_payment_intent_id) [
      | inl free ↦ inr (x, e, free, ground arith)
      | inr (p, paid_by) ↦ inl (ground arith)
    ]
  ]

  pub remove-Change : Change s.invoices (remove id org s).1.invoices
  remove-Change = elim remove-invoices [
    | inl e ↦ rw e kept
    | inr (x, found, free, e) ↦ rw e (
        removed id (λ y row.
          subst (λ (w : Invoice). w.stripe_payment_intent_id ≡ none) (by_owned x y found row) free))
  ]

pub mark_overdue-Change :
    (now : ℕ) (s : Store) → Change s.invoices (mark_overdue_invoices now s).invoices
unfolding mark_overdue_invoices
mark_overdue-Change now s =
    rewritten (is_late now) mark_overdue (λ z. refl) (λ i x row late is_paid. absurd (ground arith))
