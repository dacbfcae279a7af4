-- ===== src/Invoices/Changing/Replacing.antt =====
-- The lines of an invoice after an update that replaces them, and the time entries on the old ones.
use pexlo_portal.Prelude.{
  append_nothing, ℕ, ◌≡◌, ◌≢◌, ◌∙◌, ap, refl, Bool, false, Option, none, some, List, [], ◌∷◌, ◌&&◌,
  map, arith, if◌then◌else◌, find_first, find_first-update, find_many, find_many-append,
  find_many-delete, delete_where, any, has_key,
}
use pexlo_portal.Service.{ok}
use pexlo_portal.Ledger.{Invoice, InvoiceLineItem, TimeEntry, Store, entry_id}
use pexlo_portal.Invoices.Creating.{Lines, new_line}
use pexlo_portal.Invoices.Changing.{
  UpdateInvoice, update, owned, is_refused, is_line_of, on_lines, release, delete_lines,
  replace_lines,
}
use pexlo_portal.Invoices.Reading.{lines_of}

on_lines-find_many :
    (p : InvoiceLineItem → Bool) (r : Option ℕ) (ls : List InvoiceLineItem)
    → any (λ (l : InvoiceLineItem). p l && on_lines (l ∷ []) r) ls ≡ on_lines (find_many p ls) r
on_lines-find_many p none [] = refl
on_lines-find_many p (some k) [] = refl
on_lines-find_many p none (l ∷ ls) = ground (arith, on_lines-find_many p none ls)
on_lines-find_many p (some k) (l ∷ ls) = ground (arith, on_lines-find_many p (some k) ls)

find_many-new_line :
    (id : ℕ) (ls : Lines) → find_many (is_line_of id) (map (new_line id) ls) ≡ map (new_line id) ls
find_many-new_line id [] = refl
find_many-new_line id (l ∷ ls) = ground (arith, find_many-new_line id ls)

find_many-other_line :
    (id j : ℕ) (ls : Lines) → j ≢ id → find_many (is_line_of j) (map (new_line id) ls) ≡ []
find_many-other_line id j [] other = refl
find_many-other_line id j (l ∷ ls) other = ground (arith, find_many-other_line id j ls other)

find_many-delete_other :
    (id j : ℕ) (ls : List InvoiceLineItem)
    → j ≢ id
    → find_many (is_line_of j) (delete_where (is_line_of id) ls) ≡ find_many (is_line_of j) ls
find_many-delete_other id j [] other = refl
find_many-delete_other id j (l ∷ ls) other = ground (arith, find_many-delete_other id j ls other)

module _ (id org : ℕ) (dto : UpdateInvoice) (lines : Lines) (x : Invoice) (s : Store)
    (found : find_first (owned id org) s.invoices ≡ some x)
    (fine : is_refused dto.status x.status ≡ false) (asked : dto.line_items ≡ some lines) where
  update-tables :
      ((update id dto org s).0 ≡ ok tt)
      × ((update id dto org s).1.line_items ≡ (replace_lines id (some lines) s).line_items)
      × ((update id dto org s).1.entries ≡ (replace_lines id (some lines) s).entries)
  unfolding update
  update-tables = (ground arith, ground arith, ground arith)

  seen_entry :
      (i : ℕ) (e : TimeEntry)
      → find_first (has_key entry_id i) s.entries ≡ some e
      → find_first (has_key entry_id i) (replace_lines id (some lines) s).entries
        ≡ some (if on_lines (lines_of id s) e.invoice_line_item_id then release e else e)
  unfolding delete_lines
  seen_entry i e here =
      find_first-update (has_key entry_id i)
        (λ (z : TimeEntry).
          any (λ (l : InvoiceLineItem). is_line_of id l && on_lines (l ∷ []) z.invoice_line_item_id)
            s.line_items)
        release s.entries (λ z. refl)
      ∙ (rw (here, on_lines-find_many (is_line_of id) e.invoice_line_item_id s.line_items) refl)

  -- An update that names lines leaves the invoice with these lines alone and the lines of every other
  -- invoice as they were; each time entry that was on an old line of the invoice is on no invoice
  -- afterwards, and every other entry is as it was.
  pub update-lines :
      let t = (update id dto org s).1 in
      ((update id dto org s).0 ≡ ok tt)
      × (lines_of id t ≡ map (new_line id) lines)
      × ((j : ℕ) → j ≢ id → lines_of j t ≡ lines_of j s)
      × ((i : ℕ) (e : TimeEntry)
          → find_first (has_key entry_id i) s.entries ≡ some e
          → find_first (has_key entry_id i) t.entries
            ≡ some (if on_lines (lines_of id s) e.invoice_line_item_id then release e else e))
  unfolding delete_lines
  update-lines =
      let (fine_end, items, entries) = update-tables in
      let old : List InvoiceLineItem = delete_where (is_line_of id) s.line_items in
      (
        fine_end,
        ap (find_many (is_line_of id)) items
            ∙ find_many-append (is_line_of id) old (map (new_line id) lines)
            ∙ (rw (find_many-delete (is_line_of id) s.line_items, find_many-new_line id lines)
                refl),
        λ j other.
            ap (find_many (is_line_of j)) items
            ∙ find_many-append (is_line_of j) old (map (new_line id) lines)
            ∙ (rw
                (
                  find_many-delete_other id j s.line_items other,
                  find_many-other_line id j lines other,
                )
                (append_nothing (find_many (is_line_of j) s.line_items))),
        λ i e here. ap (find_first (has_key entry_id i)) entries ∙ seen_entry i e here,
      )
