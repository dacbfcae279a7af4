-- ===== src/Invoices/Recording/Repeated.antt =====
-- Recording two invoices for the same time.
use mathlib.Core.List.{Memᴰ}
use pexlo_portal.Prelude.{
  ℕ, ◌≡◌, Bool, true, Option, List, [], ◌∷◌, arith, update_where, inl, inr, subst, refl, ◌⊎◌,
}
use pexlo_portal.Service.{Error, Result, ok, err}
use pexlo_portal.Ledger.{Invoice, TimeEntry, Store}
use pexlo_portal.TimeEntries.Number.{Text}
use pexlo_portal.Invoices.Recording.{RecordInvoice, record_transaction, requested, put_line}
use pexlo_portal.Invoices.Recording.Exact.{
  AllUnbilled, record_transaction-exact, record_transaction-err,
}

billed_twice :
    (ids ids' : List ℕ) (org line : ℕ) (e : TimeEntry) (es : List TimeEntry)
    → Memᴰ e es
    → requested ids org e ≡ true
    → requested ids' org e ≡ true
    → ¬ AllUnbilled ids' org (update_where (requested ids org) (put_line line) es)
billed_twice ids ids' org line e [] m h h' free = elim m [ ]
billed_twice ids ids' org line e (x ∷ es) (Memᴰ.head p) h h' free =
    let first : requested ids org x ≡ true = subst (λ y. requested ids org y ≡ true) p h in
    let then_too : requested ids' org x ≡ true = subst (λ y. requested ids' org y ≡ true) p h' in
    ground arith
billed_twice ids ids' org line e (x ∷ es) (Memᴰ.tail m) h h' free =
    billed_twice ids ids' org line e es m h h' (ground arith)

result-cases : {A : Type 0} (r : Result A) → ((a : A) × (r ≡ ok a)) ⊎ ((x : Error) × (r ≡ err x))
result-cases (ok a) = inl (a, refl)
result-cases (err x) = inr (x, refl)

-- After an invoice has been recorded with success, recording another invoice of the organisation for
-- a time entry that the first one was for, whatever else the second request asks for, throws an
-- exception and changes nothing.
pub record_transaction-once :
    (before : Text → Text → Bool) (dto : RecordInvoice) (file : Option ℕ) (org new_id new_line : ℕ)
    (dto' : RecordInvoice) (file' : Option ℕ) (new_id' new_line' : ℕ) (s : Store) (y : Invoice)
    (e : TimeEntry)
    → (record_transaction before dto file org new_id new_line s).0 ≡ ok y
    → Memᴰ e s.entries
    → requested dto.time_entry_ids org e ≡ true
    → requested dto'.time_entry_ids org e ≡ true
    → let t = (record_transaction before dto file org new_id new_line s).1 in
      (x : Error) × (record_transaction before dto' file' org new_id' new_line' t ≡ (err x, t))
record_transaction-once before dto file org new_id new_line dto' file' new_id' new_line' s y e done
      there asked again =
    let t : Store = (record_transaction before dto file org new_id new_line s).1 in
    let second : Result Invoice × Store =
      record_transaction before dto' file' org new_id' new_line' t in
    let ((_, _, entries, _), _) =
      record_transaction-exact before dto file org new_id new_line y s done in
    elim (result-cases second.0) [
      | inl (z, fine) ↦
          let (_, free) =
            record_transaction-exact before dto' file' org new_id' new_line' z t fine in
          absurd (
            billed_twice dto.time_entry_ids dto'.time_entry_ids org new_line e s.entries there asked
              again (subst (AllUnbilled dto'.time_entry_ids org) entries free))
      | inr (x, failed) ↦
          let same : second.1 ≡ t =
            record_transaction-err before dto' file' org new_id' new_line' t failed in
          (x, cc)
    ]
