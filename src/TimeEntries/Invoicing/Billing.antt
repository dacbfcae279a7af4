-- ===== src/TimeEntries/Invoicing/Billing.antt =====
-- Billing without merging: one line for each entry.
use pexlo_portal.Prelude.{
  ℕ, map, ◌≡◌, refl, Option, none, some, List, [], ◌∷◌, ◌++◌, arith, any, if◌then◌else◌, inl, inr,
  ◌∙◌, sym, ap, find_first, has_key, find_by_key-update, Option-cases,
}
use Prim.Native.String.{String}
use pexlo_portal.Ledger.{TimeEntry, Store, entry_id, update_entry, InvoiceLineItem}
use pexlo_portal.TimeEntries.Invoicing.{
  task_title, Amounts, Scope, of_project, of_client, set_line, add_line, label, rate_of, seconds_of,
  bill_each,
}

-- The line of an invoice for one entry, with the names that the tables have.
abbrev pub entry_line : Amounts → Scope → ℕ → (ℕ → ℕ) → Store → TimeEntry → InvoiceLineItem
entry_line lib scope invoice new_line s e = record {
  id = new_line e.id;
  invoice_id = invoice;
  description = lib.entry_text (label scope e s) e.started_at (seconds_of e) (rate_of e);
  quantity = 1;
  unit_price = lib.amount (seconds_of e) (rate_of e);
}

title-written :
    (task : Option ℕ) (s : Store) (entries : List TimeEntry) (lines : List InvoiceLineItem)
    → task_title task (record s { entries = entries; line_items = lines }) ≡ task_title task s
title-written none s entries lines = refl
title-written (some id) s entries lines = refl

-- Putting entries and lines into the tables changes no name.
label-written :
    (scope : Scope) (e : TimeEntry) (s : Store) (entries : List TimeEntry)
    (lines : List InvoiceLineItem)
    → label scope e (record s { entries = entries; line_items = lines }) ≡ label scope e s
label-written (of_project p) e s entries lines = rw (title-written e.task_id s entries lines) refl
label-written (of_client c) e s entries lines = rw (title-written e.task_id s entries lines) refl

map-entry_line :
    (lib : Amounts) (scope : Scope) (invoice : ℕ) (new_line : ℕ → ℕ) (s : Store)
    (entries : List TimeEntry) (lines : List InvoiceLineItem) (es : List TimeEntry)
    → map
        (entry_line lib scope invoice new_line (record s { entries = entries; line_items = lines }))
        es
      ≡ map (entry_line lib scope invoice new_line s) es
map-entry_line lib scope invoice new_line s entries lines [] = refl
map-entry_line lib scope invoice new_line s entries lines (e ∷ es) =
    rw
      (
        label-written scope e s entries lines,
        map-entry_line lib scope invoice new_line s entries lines es,
      )
      refl

append_nil : (xs : List InvoiceLineItem) → xs ++ [] ≡ xs
append_nil [] = refl
append_nil (x ∷ xs) = ground (arith, append_nil xs)

append_assoc :
    (xs : List InvoiceLineItem) (y : InvoiceLineItem) (zs : List InvoiceLineItem)
    → (xs ++ y ∷ []) ++ zs ≡ xs ++ y ∷ zs
append_assoc [] y zs = refl
append_assoc (x ∷ xs) y zs = ground (arith, append_assoc xs y zs)

module _ (lib : Amounts) (scope : Scope) (target : String) (invoice : ℕ) (new_line : ℕ → ℕ) where
  bill_each-entry :
      (i : ℕ) (es : List TimeEntry) (s : Store)
      → find_first (has_key entry_id i) (bill_each lib scope target invoice new_line es s).entries
        ≡ elim (find_first (has_key entry_id i) s.entries) [
          | none ↦ none
          | some e ↦ some (if any (has_key entry_id i) es then set_line (new_line i) e else e)
        ]
  unfolding bill_each
  bill_each-entry i [] s = elim (Option-cases (find_first (has_key entry_id i) s.entries)) [
    | inl e ↦ ground arith
    | inr (x, e) ↦ ground arith
  ]
  bill_each-entry i (e ∷ es) s =
      let t : Store =
        add_line (new_line e.id) invoice
          (lib.entry_text (label scope e s) e.started_at (seconds_of e) (rate_of e))
          (lib.amount (seconds_of e) (rate_of e)) s in
      let u : Store = update_entry e.id (set_line (new_line e.id)) t in
      ground (
        arith,
        bill_each-entry i es u,
        find_by_key-update entry_id (set_line (new_line e.id)) (λ x. refl) i e.id s.entries,
      )

  bill_each-lines :
      (es : List TimeEntry) (s : Store)
      → (bill_each lib scope target invoice new_line es s).line_items
        ≡ s.line_items ++ map (entry_line lib scope invoice new_line s) es
  unfolding bill_each update_entry
  bill_each-lines [] s = sym (append_nil s.line_items)
  bill_each-lines (e ∷ es) s =
      let line : InvoiceLineItem = entry_line lib scope invoice new_line s e in
      let t : Store = add_line line.id invoice line.description line.unit_price s in
      let u : Store = update_entry e.id (set_line (new_line e.id)) t in
      bill_each-lines es u
      ∙ ap (λ ls. (s.line_items ++ line ∷ []) ++ ls)
          (map-entry_line lib scope invoice new_line s u.entries u.line_items es)
      ∙ append_assoc s.line_items line (map (entry_line lib scope invoice new_line s) es)

  -- Billing without merging adds one line for each entry of the list, in order, on the new invoice,
  -- with the identifier that is generated for it, the text of the entry, the quantity 1, and as its
  -- price the amount for the entry's seconds at its rate; and it puts each entry of the list, as it
  -- stands in the table, on the line with the identifier that is generated for it, and leaves all
  -- other entries as they were.
  pub bill_each-exact :
      (es : List TimeEntry) (s : Store)
      → let t = bill_each lib scope target invoice new_line es s in
        ((i : ℕ)
          → find_first (has_key entry_id i) t.entries
            ≡ elim (find_first (has_key entry_id i) s.entries) [
              | none ↦ none
              | some e ↦ some (if any (has_key entry_id i) es then set_line (new_line i) e else e)
            ])
        × (t.line_items ≡ s.line_items ++ map (entry_line lib scope invoice new_line s) es)
  bill_each-exact es s = (λ i. bill_each-entry i es s, bill_each-lines es s)
