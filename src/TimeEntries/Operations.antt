-- ===== src/TimeEntries/Operations.antt =====
-- Each operation on time entries, as a change of their table.
use pexlo_portal.Prelude.{
  ℕ, ◌≡◌, ◌≢◌, ◌⊎◌, refl, inl, inr, Bool, true, none, some, List, [], ◌∷◌, ◌==◌, arith, subst,
  find_first, update_where, delete_where, any, is_none, has_key, Option-cases, Bool-cases,
  find_first_sound, row_by_key, All, leb,
}
use pexlo_portal.Service.{Error, ok, err, conflict, not_found, forbidden}
use pexlo_portal.Ledger.{
  TimeEntry, Store, is_running, entry_id, insert_entry, update_entry, seconds_between, project_of,
  resolve_rate,
}
use pexlo_portal.TimeEntries.Timer.{close, stop, check_task}
use pexlo_portal.TimeEntries.Edits.{
  CreateManualEntry, UpdateTimeEntry, create, update, delete, find_own_entry, edited, manual_entry,
  owned,
}
use pexlo_portal.TimeEntries.Changes.{
  Timed, IsSound, MayRewrite, Change, kept, inserted, rewritten, deleted,
}

running_row :
    (org user : ℕ) (s : Store) (r : TimeEntry)
    → IsSound s.entries
    → find_first (is_running org user) s.entries ≡ some r
    → (r.ended_at ≡ none)
running_row org user s r h e = ground (arith, find_first_sound (is_running org user) s.entries r e)

Timed-row :
    (p : TimeEntry → Bool) (xs : List TimeEntry) (r : TimeEntry)
    → All Timed xs
    → find_first p xs ≡ some r
    → Timed r
Timed-row p [] r a e = cc
Timed-row p (x ∷ xs) r a e = elim (Bool-cases (p x)) [
  | inl y ↦ let first : x ≡ r = ground arith in subst Timed first a.0
  | inr n ↦ let rest : find_first p xs ≡ some r = ground arith in Timed-row p xs r a.1 rest
]

unlocked_row : (r : TimeEntry) → r.ended_at ≡ none → Timed r → r.invoice_line_item_id ≡ none
unlocked_row r e t =
    (subst
      (λ o. elim o as (λ x. Type 0) [
        | none ↦ (r.duration_sec ≡ none) × (r.invoice_line_item_id ≡ none)
        | some z ↦ r.duration_sec ≡ some (seconds_between r.started_at z)
      ])
      e t).1

pub closing :
    (org user now : ℕ) (s : Store) (r : TimeEntry)
    → IsSound s.entries
    → find_first (is_running org user) s.entries ≡ some r
    → MayRewrite s.entries r (close r now)
closing org user now s r h e = record {
  found = row_by_key entry_id (is_running org user) s.entries r h.keyed e;
  unlocked =
      unlocked_row r (running_row org user s r h e)
        (Timed-row (is_running org user) s.entries r h.timed e);
  same_id = λ x. refl;
  runs = λ o u x. ground arith;
  times = λ t. refl;
}

pub stop-Change :
    (user org now : ℕ) (s : Store)
    → IsSound s.entries
    → Change s.entries (stop user org now s).1.entries
unfolding stop update_entry
stop-Change user org now s h = elim (Option-cases (find_first (is_running org user) s.entries)) [
  | inl e ↦ rw e kept
  | inr (r, e) ↦ rw e (rewritten r (close r now) (closing org user now s r h e))
]

pub insert_entry-Change :
    (e : TimeEntry) (s : Store)
    → Timed e
    → All (λ (y : TimeEntry). y.id ≢ e.id) s.entries
    → Change s.entries (insert_entry e s).1.entries
unfolding insert_entry
insert_entry-Change e s t fresh =
    elim (Bool-cases (any (is_running e.organization_id e.user_id) s.entries)) [
      | inl busy ↦ elim (Bool-cases (is_none e.ended_at)) [
        | inl runs ↦ rw (busy, runs) kept
        | inr ended ↦ rw ended (inserted e (inl ended) t fresh)
      ]
      | inr free ↦ elim (Bool-cases (is_none e.ended_at)) [
        | inl runs ↦ rw (free, runs) (inserted e (inr free) t fresh)
        | inr ended ↦ rw ended (inserted e (inl ended) t fresh)
      ]
    ]

module _ (user org : ℕ) (s : Store) where
  create-entries :
      (dto : CreateManualEntry) (new_id : ℕ)
      → ((create user org dto new_id s).1.entries ≡ s.entries)
        ⊎ ((create user org dto new_id s).1.entries
            ≡ (insert_entry
                (manual_entry user org dto (resolve_rate org user dto.project_id s) new_id)
                s).1.entries)
  unfolding create check_task
  create-entries dto new_id = elim (Bool-cases (leb dto.ended_at dto.started_at)) [
    | inl early ↦ ground arith
    | inr later ↦ elim (Option-cases (project_of dto.project_id org s)) [
      | inl e ↦ ground arith
      | inr (p, e) ↦ ground arith
    ]
  ]

  pub create-Change :
      (dto : CreateManualEntry) (new_id : ℕ)
      → All (λ (y : TimeEntry). y.id ≢ new_id) s.entries
      → Change s.entries (create user org dto new_id s).1.entries
  create-Change dto new_id fresh = elim (create-entries dto new_id) [
    | inl e ↦ rw e kept
    | inr e ↦ rw e (
        insert_entry-Change
          (manual_entry user org dto (resolve_rate org user dto.project_id s) new_id) s refl fresh)
  ]

  own_row :
      (id : ℕ)
      → ((e : Error) × (find_own_entry id user org s ≡ (err e, s)))
        ⊎ ((r : TimeEntry) × (find_own_entry id user org s ≡ (ok r, s))
            × (find_first (owned id org) s.entries ≡ some r)
            × (r.user_id ≡ user)
            × (r.invoice_line_item_id ≡ none))
  unfolding find_own_entry
  own_row id = elim (Option-cases (find_first (owned id org) s.entries)) [
    | inl e ↦ inl (not_found, rw e refl)
    | inr (r, e) ↦ elim (Bool-cases (r.user_id == user)) [
      | inr other ↦ inl (forbidden, rw (e, other) refl)
      | inl mine ↦ elim (Option-cases r.invoice_line_item_id) [
        | inl open_line ↦ inr (r, rw (e, mine, open_line) refl, e, ground arith, open_line)
        | inr (l, locked) ↦ inl (conflict, rw (e, mine, locked) refl)
      ]
    ]
  ]

  own_id : (id : ℕ) (r : TimeEntry) → find_first (owned id org) s.entries ≡ some r → r.id ≡ id
  own_id id r e = ground (arith, find_first_sound (owned id org) s.entries r e)

  delete-refused :
      (id : ℕ) (x : Error)
      → find_own_entry id user org s ≡ (err x, s)
      → (delete id user org s).1.entries ≡ s.entries
  unfolding delete
  delete-refused id x e = ground arith

  delete-entries :
      (id : ℕ) (r : TimeEntry)
      → find_own_entry id user org s ≡ (ok r, s)
      → (delete id user org s).1.entries ≡ delete_where (has_key entry_id id) s.entries
  unfolding delete
  delete-entries id r e = ground arith

  pub delete-Change :
      (id : ℕ) → IsSound s.entries → Change s.entries (delete id user org s).1.entries
  delete-Change id h = elim (own_row id) [
    | inl (x, e) ↦ rw (delete-refused id x e) kept
    | inr (r, e, found, mine, unlocked) ↦
        rw (delete-entries id r e, ← own_id id r found)
          (deleted r (row_by_key entry_id (owned id org) s.entries r h.keyed found) unlocked)
  ]

edited-Timed : (dto : UpdateTimeEntry) (r : TimeEntry) → Timed r → Timed (edited r dto r)
edited-Timed dto r t = elim (Option-cases dto.ended_at) [
  | inr (x, e) ↦ rw e refl
  | inl e ↦ elim (Option-cases r.ended_at) [
    | inl e' ↦
        let t' : (r.duration_sec ≡ none) × (r.invoice_line_item_id ≡ none) = rw e' at t in
        rw (e, e') t'
    | inr (x, e') ↦ rw (e, e') refl
  ]
]

edited-runs :
    (dto : UpdateTimeEntry) (r : TimeEntry) (org user : ℕ)
    → is_running org user (edited r dto r) ≡ true
    → is_running org user r ≡ true
edited-runs dto r org user h = elim (Option-cases dto.ended_at) [
  | inr (x, e) ↦ ground arith
  | inl e ↦ ground arith
]

module _ (user org : ℕ) (s : Store) where
  update-entries :
      (id : ℕ) (dto : UpdateTimeEntry) (r : TimeEntry)
      → find_own_entry id user org s ≡ (ok r, s)
      → ((update id user org dto s).1.entries ≡ s.entries)
        ⊎ ((update id user org dto s).1.entries
            ≡ update_where (has_key entry_id id) (edited r dto) s.entries)
  unfolding update update_entry check_task
  update-entries id dto r e = ground arith

  update-refused :
      (id : ℕ) (dto : UpdateTimeEntry) (x : Error)
      → find_own_entry id user org s ≡ (err x, s)
      → (update id user org dto s).1.entries ≡ s.entries
  unfolding update
  update-refused id dto x e = ground arith

  pub update-Change :
      (id : ℕ) (dto : UpdateTimeEntry)
      → IsSound s.entries
      → Change s.entries (update id user org dto s).1.entries
  update-Change id dto h = elim (own_row user org s id) [
    | inl (x, e) ↦ rw (update-refused id dto x e) kept
    | inr (r, e, found, mine, unlocked) ↦ elim (update-entries id dto r e) [
      | inl same ↦ rw same kept
      | inr e' ↦
          rw (e', ← own_id user org s id r found)
            (rewritten r (edited r dto) (record {
              found = row_by_key entry_id (owned id org) s.entries r h.keyed found;
              unlocked = unlocked;
              same_id = λ x. refl;
              runs = λ o u. edited-runs dto r o u;
              times = edited-Timed dto r;
            }))
    ]
  ]
