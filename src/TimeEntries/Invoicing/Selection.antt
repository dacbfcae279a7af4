-- ===== src/TimeEntries/Invoicing/Selection.antt =====
-- The entries that `generateInvoice` bills.
use mathlib.Core.List.{Memᴰ}
use pexlo_portal.Prelude.{
  ◌+◌, ◌*◌, ◌≤◌, ◌<◌, ◌⊎◌, ◌==◌, Option, none, some, is_some, any_sound, ℕ, ◌≡◌, true, false, List,
  [], ◌∷◌, arith, refl, Bool-cases, Option-cases, inl, inr, ltb, any, find_many, find_many-All, All,
  subst, ◌∙◌,
}
use pexlo_portal.Service.{ok}
use pexlo_portal.Ledger.{Project, TimeEntry, Store, update_entry}
use pexlo_portal.TimeEntries.Invoicing.{
  Scope, of_project, of_client, GenerateInvoice, in_scope, in_days, is_eligible, insert_by_start,
  sort_by_start, eligible_entries, lacks_rate, missing_rate, set_rate, backfill_rates,
  select_entries,
}

module _ (P : TimeEntry → Type 0) where
  insert-All : (e : TimeEntry) (fs : List TimeEntry) → P e → All P fs → All P (insert_by_start e fs)
  insert-All e [] p h = (p, tt)
  insert-All e (f ∷ fs) p h = elim (Bool-cases (ltb f.started_at e.started_at)) [
    | inl y ↦ rw y (h.0, insert-All e fs p h.1)
    | inr n ↦ rw n (p, h)
  ]

  sort-All : (es : List TimeEntry) → All P es → All P (sort_by_start es)
  sort-All [] h = tt
  sort-All (e ∷ es) h = insert-All e (sort_by_start es) h.0 (sort-All es h.1)

  backfill-All :
      ((r : ℕ) (e : TimeEntry) → P e → P (set_rate r e))
      → (org : ℕ) (es : List TimeEntry) (s : Store) → All P es
      → All P (backfill_rates org es s).0
  unfolding backfill_rates
  backfill-All keeps org [] s h = tt
  backfill-All keeps org (e ∷ es) s h = elim (Option-cases (missing_rate org e s)) [
    | inl m ↦ rw (m, backfill_rates) (h.0, backfill-All keeps org es s h.1)
    | inr (r, m) ↦
        rw (m, backfill_rates)
          (keeps r e h.0, backfill-All keeps org es (update_entry e.id (set_rate r) s) h.1)
  ]

All-rated :
    (P : TimeEntry → Type 0) (es : List TimeEntry)
    → any lacks_rate es ≡ false
    → All P es
    → All (λ e. P e × (lacks_rate e ≡ false)) es
All-rated P [] n h = tt
All-rated P (e ∷ es) n h = ((h.0, ground arith), All-rated P es (ground arith) h.1)

-- Whether an entry is to be billed does not depend on its rate.
is_eligible-set_rate :
    (scope : Scope) (org : ℕ) (dto : GenerateInvoice) (ps : List Project) (r : ℕ) (e : TimeEntry)
    → is_eligible scope org dto ps (set_rate r e) ≡ is_eligible scope org dto ps e
is_eligible-set_rate (of_project p) org dto ps r e = refl
is_eligible-set_rate (of_client c) org dto ps r e = refl

-- The entry's project is the one to be invoiced, or belongs to the client that is.
abbrev pub InScope : Scope → List Project → TimeEntry → Type 0
InScope (of_project p) projects e = e.project_id ≡ p
InScope (of_client c) projects e =
    (q : Project) × Memᴰ q projects × (q.id ≡ e.project_id) × (q.billing_client_id ≡ some c)

abbrev pub NotBefore : Option ℕ → ℕ → Type 0
NotBefore none t = Unit {0}
NotBefore (some a) t = a ≤ t

-- Not after the day that begins at the date.
abbrev pub NotAfterDay : Option ℕ → ℕ → Type 0
NotAfterDay none t = Unit {0}
NotAfterDay (some b) t = t < b + 24 * 60 * 60 * 1000

-- What an entry must be to be billed on the request of an organisation.
pub record Billable (scope : Scope) (org : ℕ) (dto : GenerateInvoice) (s : Store) (e : TimeEntry)
    : Type 0 where
  pub of_organization : e.organization_id ≡ org
  pub in_its_scope : InScope scope s.projects e
  pub unbilled : e.invoice_line_item_id ≡ none
  pub ended : (t : ℕ) × (e.ended_at ≡ some t)
  pub timed : (d : ℕ) × (e.duration_sec ≡ some d)
  pub asked : (e.billable ≡ true) ⊎ (dto.include_non_billable ≡ true)
  pub since : NotBefore dto.from e.started_at
  pub until : NotAfterDay dto.to e.started_at
  pub rated : (r : ℕ) × (e.hourly_rate_cents ≡ some r) × (1 ≤ r)

in_scope-InScope :
    (scope : Scope) (ps : List Project) (e : TimeEntry)
    → in_scope scope ps e ≡ true
    → InScope scope ps e
in_scope-InScope (of_project p) ps e h = ground arith
in_scope-InScope (of_client c) ps e h =
    let (q, m, k) = any_sound _ ps h in (q, m, ground arith, ground arith)

is_some-some : (o : Option ℕ) → is_some o ≡ true → (x : ℕ) × (o ≡ some x)
is_some-some none h = absurd (ground arith)
is_some-some (some x) h = (x, refl)

days-NotBefore : (from to : Option ℕ) (t : ℕ) → in_days from to t ≡ true → NotBefore from t
days-NotBefore none to t h = tt
days-NotBefore (some a) to t h = ground arith

days-NotAfterDay : (from to : Option ℕ) (t : ℕ) → in_days from to t ≡ true → NotAfterDay to t
days-NotAfterDay from none t h = tt
days-NotAfterDay from (some b) t h = ground arith

rate_given :
    (o : Option ℕ)
    → elim o [ none ↦ true | some r ↦ r == 0 ] ≡ false
    → (r : ℕ) × (o ≡ some r) × (1 ≤ r)
rate_given none h = absurd (ground arith)
rate_given (some r) h = (r, refl, ground arith)

is_eligible-Billable :
    (scope : Scope) (org : ℕ) (dto : GenerateInvoice) (s : Store) (e : TimeEntry)
    → is_eligible scope org dto s.projects e ≡ true
    → lacks_rate e ≡ false
    → Billable scope org dto s e
is_eligible-Billable scope org dto s e h k =
    let days : in_days dto.from dto.to e.started_at ≡ true = ground arith in
    record {
      of_organization = ground arith;
      in_its_scope = in_scope-InScope scope s.projects e (ground arith);
      unbilled = ground arith;
      ended = is_some-some e.ended_at (ground arith);
      timed = is_some-some e.duration_sec (ground arith);
      asked = ground arith;
      since = days-NotBefore dto.from dto.to e.started_at days;
      until = days-NotAfterDay dto.from dto.to e.started_at days;
      rated = rate_given e.hourly_rate_cents k;
    }

All-Billable :
    (scope : Scope) (org : ℕ) (dto : GenerateInvoice) (s : Store) (es : List TimeEntry)
    → All (λ e. (is_eligible scope org dto s.projects e ≡ true) × (lacks_rate e ≡ false)) es
    → All (Billable scope org dto s) es
All-Billable scope org dto s [] h = tt
All-Billable scope org dto s (e ∷ es) h =
    (is_eligible-Billable scope org dto s e h.0.0 h.0.1, All-Billable scope org dto s es h.1)

module _ (scope : Scope) (org : ℕ) (dto : GenerateInvoice) (s : Store) where
  selected :
      (es : List TimeEntry)
      → (select_entries scope org dto s).0 ≡ ok es
      → (any lacks_rate es ≡ false)
        × ((backfill_rates org (eligible_entries scope org dto s) s).0 ≡ es)
  unfolding select_entries
  selected es h = ground arith

  eligible-selected :
      (es : List TimeEntry)
      → (select_entries scope org dto s).0 ≡ ok es
      → All (λ e. (is_eligible scope org dto s.projects e ≡ true) × (lacks_rate e ≡ false)) es
  unfolding eligible_entries
  eligible-selected es h =
      let (rated, same) = selected es h in
      let P : TimeEntry → Type 0 = λ e. is_eligible scope org dto s.projects e ≡ true in
      let found : All P (eligible_entries scope org dto s) =
        sort-All P (find_many (is_eligible scope org dto s.projects) s.entries)
          (find_many-All (is_eligible scope org dto s.projects) s.entries) in
      All-rated P es rated (
        subst (All P) same (
          backfill-All P (λ r e p. is_eligible-set_rate scope org dto s.projects r e ∙ p) org
            (eligible_entries scope org dto s) s found))

  -- Each entry that is selected for billing belongs to the organisation and to the project, or to a
  -- project of the billing client, that the request names; it is on no invoice, has an end and a
  -- duration, started in the days of the request, the last one included, is billable unless the
  -- request asks for the others too, and has a rate that is not 0.
  pub select_entries_sound :
      (es : List TimeEntry)
      → (select_entries scope org dto s).0 ≡ ok es
      → All (Billable scope org dto s) es
  select_entries_sound es h = All-Billable scope org dto s es (eligible-selected es h)
