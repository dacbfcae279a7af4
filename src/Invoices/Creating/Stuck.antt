-- ===== src/Invoices/Creating/Stuck.antt =====
-- A numbering that `create` cannot get out of.
use pexlo_portal.Prelude.{ℕ, zero, suc, ◌≡◌, ◌<◌, ◌∙◌, ap, Bool, true, some, arith}
use pexlo_portal.Service.{err, unique_violation}
use pexlo_portal.Ledger.{Store, is_taken}
use pexlo_portal.TimeEntries.Double.{safe, to_double, to_double-exact}
use pexlo_portal.TimeEntries.Number.{Text, invoice_number, match_number, next_number}
use pexlo_portal.TimeEntries.Number.RoundTrip.{match_number-invoice_number}
use pexlo_portal.Invoices.Creating.{
  CreateInvoice, create, create_once, number_after, greatest_number,
}
use pexlo_portal.Invoices.Creating.Attempts.{
  IsPermitted, clashes, state_at, with_retries-refused, create_once-taken,
}

next_number-suc : (n : ℕ) → n < safe → next_number (some (invoice_number n)) ≡ suc n
unfolding next_number
next_number-suc n h =
    let exact : to_double (suc n) ≡ suc n = to_double-exact (suc n) (omega arith) in
    let read : match_number (invoice_number n) ≡ some n =
      match_number-invoice_number n (omega arith) in
    ground (arith, read, exact)

module _ (before : Text → Text → Bool) (dto : CreateInvoice) (org new_id n : ℕ) where
  -- The project is permitted; the greatest number of the organisation, in the order of the database,
  -- is `n`; and an invoice has the number `n + 1` all the same.
  pub record IsStuck (s : Store) : Type 0 where
    pub permitted : IsPermitted before dto org new_id s
    pub greatest : greatest_number before org s.invoices ≡ some (invoice_number n)
    pub has_next : is_taken org (invoice_number (suc n)) s ≡ true

  IsStuck-clashes : (s : Store) → n < safe → IsStuck s → clashes before dto org new_id s ≡ true
  IsStuck-clashes s small h =
      let next : number_after before org s ≡ invoice_number (suc n) =
        ap (λ o. invoice_number (next_number o)) h.greatest
        ∙ ap invoice_number (next_number-suc n small) in
      ap (λ k. is_taken org k s) next ∙ h.has_next

  state_at-IsStuck :
      (others : ℕ → Store → Store)
      → ((k : ℕ) (t : Store) → IsStuck t → IsStuck (others k t))
      → (m k : ℕ) (s : Store) → IsStuck s
      → IsStuck (state_at others m k s)
  state_at-IsStuck others keeps m zero s h = h
  state_at-IsStuck others keeps zero (suc k) s h = h
  state_at-IsStuck others keeps (suc m) (suc k) s h =
      state_at-IsStuck others keeps m k (others m s) (keeps m s h)

  -- Where the project is permitted, the greatest number of the organisation in the order of the
  -- database is `n`, less than 2 ** 53, and an invoice has the number `n + 1` all the same, and the
  -- other calls between the attempts keep it so, `create` always fails with the unique-constraint
  -- error, and writes nothing itself.
  pub create-stuck :
      (others : ℕ → Store → Store) (s : Store)
      → n < safe
      → ((k : ℕ) (t : Store) → IsStuck t → IsStuck (others k t))
      → IsStuck s
      → create before dto org new_id others s ≡ (err unique_violation, state_at others 3 3 s)
  unfolding create
  create-stuck others s small keeps h =
      with_retries-refused (create_once before dto org new_id) others 3 s (λ j le.
        let still : IsStuck (state_at others 3 j s) = state_at-IsStuck others keeps 3 j s h in
        create_once-taken before dto org new_id (state_at others 3 j s) still.permitted
          (IsStuck-clashes (state_at others 3 j s) small still))
