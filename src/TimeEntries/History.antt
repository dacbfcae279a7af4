-- ===== src/TimeEntries/History.antt =====
-- The operations on time entries, one after another.
use pexlo_portal.Prelude.{
  ℕ, ◌≡◌, ◌≢◌, ◌⊎◌, inl, inr, Option, none, some, List, [], ◌∷◌, ◌-◌, ◌*◌, ◌≤◌, Bool, refl, ap, any,
  find_many, Bool-cases, arith, find_first, has_key, Option-cases, All, All-keys_update,
}
use Prim.Native.String.{String}
use pexlo_portal.Service.{Result-cases}
use pexlo_portal.Ledger.{
  TimeEntry, PendingTimeCapture, Store, seconds_between, is_running, entry_id, insert_entry,
  update_entry, project_of, resolve_rate,
}
use pexlo_portal.TimeEntries.Timer.{
  StartTimer, close, close_running, start_transaction, start, stop, new_timer, check_task,
}
use pexlo_portal.TimeEntries.Edits.{
  CreateManualEntry, UpdateTimeEntry, CreateTimeEntryLog, create, update, delete, add_log,
  delete_log,
}
use pexlo_portal.TimeEntries.Captures.{
  CaptureTaskCompletion, ResolvePendingTimeCapture, capture_task_completion,
  resolve_pending_capture, note_done, last_started, runs_in, is_open, is_pending, captured_entry,
}
use pexlo_portal.TimeEntries.Captures.Resolving.{resolve_pending_capture-entries}
use pexlo_portal.TimeEntries.Changes.{
  IsSound, Change, kept, inserted, rewritten, Change-IsSound, Change-locked,
}
use pexlo_portal.TimeEntries.Operations.{
  closing, stop-Change, insert_entry-Change, create-Change, update-Change, delete-Change,
}

pub data Changes (es : List TimeEntry) : List TimeEntry → Type 0 where
  done : Changes es es
  also : {fs gs : List TimeEntry} → Changes es fs → Change fs gs → Changes es gs

Changes-IsSound : {es fs : List TimeEntry} → Changes es fs → IsSound es → IsSound fs
Changes-IsSound done h = h
Changes-IsSound (also cs c) h = Change-IsSound c (Changes-IsSound cs h)

Changes-locked :
    {es fs : List TimeEntry} (i line : ℕ) (e : TimeEntry)
    → Changes es fs
    → find_first (has_key entry_id i) es ≡ some e
    → e.invoice_line_item_id ≡ some line
    → find_first (has_key entry_id i) fs ≡ some e
Changes-locked i line e done found locked = found
Changes-locked i line e (also cs c) found locked =
    Change-locked i line e c (Changes-locked i line e cs found locked) locked

module _ (user org : ℕ) (dto : StartTimer) (now new_id : ℕ) (s : Store) where
  start_transaction-entries :
      (rate : Option ℕ)
      → let r = find_first (is_running org user) s.entries in
        ((start_transaction user org dto rate now new_id s).1.entries ≡ s.entries)
        ⊎ ((start_transaction user org dto rate now new_id s).1.entries
            ≡ (insert_entry
                (new_timer user org dto rate now new_id)
                (close_running r now s)).1.entries)
  unfolding start_transaction
  start_transaction-entries rate =
      let timer : TimeEntry = new_timer user org dto rate now new_id in
      let r : Option TimeEntry = find_first (is_running org user) s.entries in
      elim (Result-cases (insert_entry timer (close_running r now s)).0) [
        | inl e ↦ ground arith
        | inr (x, e) ↦ ground arith
      ]

  start-entries :
      ((start user org dto now new_id s).1.entries ≡ s.entries)
      ⊎ ((start user org dto now new_id s).1.entries
          ≡ (start_transaction user org dto
              (resolve_rate org user dto.project_id s)
              now
              new_id
              s).1.entries)
  unfolding start check_task
  start-entries = elim (Option-cases (project_of dto.project_id org s)) [
    | inl e ↦ ground arith
    | inr (p, e) ↦ ground arith
  ]

  pub start-Changes :
      IsSound s.entries
      → All (λ (y : TimeEntry). y.id ≢ new_id) s.entries
      → Changes s.entries (start user org dto now new_id s).1.entries
  unfolding update_entry
  start-Changes h fresh =
      let rate : Option ℕ = resolve_rate org user dto.project_id s in
      let timer : TimeEntry = new_timer user org dto rate now new_id in
      elim start-entries [
        | inl e ↦ rw e done
        | inr e ↦ elim (start_transaction-entries rate) [
          | inl e' ↦ rw (e, e') done
          | inr e' ↦ elim (Option-cases (find_first (is_running org user) s.entries)) [
            | inl none_runs ↦
                rw (e, e', none_runs) (also done (insert_entry-Change timer s (refl, refl) fresh))
            | inr (r, runs) ↦
                rw (e, e', runs)
                  (also (also done (rewritten r (close r now) (closing org user now s r h runs))) (
                    insert_entry-Change timer (update_entry r.id (close r now) s) (refl, refl)
                      (All-keys_update entry_id (close r now) (λ x. refl) new_id
                        (has_key entry_id r.id) s.entries fresh)))
          ]
        ]
      ]

add_log-entries :
    (trim : String → String) (id user org : ℕ) (dto : CreateTimeEntryLog) (new_id : ℕ) (s : Store)
    → (add_log trim id user org dto new_id s).1.entries ≡ s.entries
unfolding add_log
add_log-entries trim id user org dto new_id s = ground arith

delete_log-entries : (id org : ℕ) (s : Store) → (delete_log id org s).1.entries ≡ s.entries
unfolding delete_log
delete_log-entries id org s = ground arith

note_done-entries :
    (input : CaptureTaskCompletion) (o : Option TimeEntry) (new_log : ℕ) (s : Store)
    → (note_done input o new_log s).entries ≡ s.entries
note_done-entries input none new_log s = refl
note_done-entries input (some e) new_log s = refl

capture_task_completion-entries :
    (trim : String → String) (input : CaptureTaskCompletion) (now new_id new_log : ℕ) (s : Store)
    → (capture_task_completion trim input now new_id new_log s).entries ≡ s.entries
unfolding capture_task_completion
capture_task_completion-entries trim input now new_id new_log s =
    let running =
      last_started (find_many (runs_in input.organization_id input.project_id) s.entries) in
    elim (Bool-cases (any (is_open input) s.captures)) [
      | inl e ↦ rw e refl
      | inr e ↦ rw e (note_done-entries input running new_log s)
    ]

found_in :
    (p : PendingTimeCapture → Bool) (n : ℕ) (cs : List PendingTimeCapture) (c : PendingTimeCapture)
    → All (λ (d : PendingTimeCapture). n ≤ d.completed_at) cs
    → find_first p cs ≡ some c
    → n ≤ c.completed_at
found_in p n [] c h e = absurd (ground arith)
found_in p n (d ∷ cs) c h e = elim (Bool-cases (p d)) [
  | inl hit ↦ ground arith
  | inr miss ↦ ground (arith, found_in p n cs c h.1)
]

resolve-Change :
    (id user org : ℕ) (dto : ResolvePendingTimeCapture) (now new_id new_log : ℕ) (s : Store)
    → All (λ (y : TimeEntry). y.id ≢ new_id) s.entries
    → All (λ (c : PendingTimeCapture). dto.duration_sec * 1000 ≤ c.completed_at) s.captures
    → Change s.entries (resolve_pending_capture id user org dto now new_id new_log s).1.entries
resolve-Change id user org dto now new_id new_log s fresh late =
    elim (resolve_pending_capture-entries id user org dto now new_id new_log s) [
      | inl e ↦ rw e kept
      | inr (c, rate, found, e) ↦
          let after : dto.duration_sec * 1000 ≤ c.completed_at =
            found_in (is_pending id org) (dto.duration_sec * 1000) s.captures c late found in
          let timed : dto.duration_sec
              ≡ seconds_between (c.completed_at - dto.duration_sec * 1000) c.completed_at =
            omega arith in
          rw e
            (inserted (captured_entry user org dto c rate new_id) (inl refl) (ap some timed) fresh)
    ]

-- One call of the service; a new entry has a new identifier, and work begins after 1970.
pub data Step (s : Store) : Store → Type 0 where
  starting :
      (user org : ℕ) (dto : StartTimer) (now new_id : ℕ)
      → All (λ (y : TimeEntry). y.id ≢ new_id) s.entries
      → Step s (start user org dto now new_id s).1
  stopping : (user org now : ℕ) → Step s (stop user org now s).1
  creating :
      (user org : ℕ) (dto : CreateManualEntry) (new_id : ℕ)
      → All (λ (y : TimeEntry). y.id ≢ new_id) s.entries
      → Step s (create user org dto new_id s).1
  updating : (id user org : ℕ) (dto : UpdateTimeEntry) → Step s (update id user org dto s).1
  deleting : (id user org : ℕ) → Step s (delete id user org s).1
  logging :
      (trim : String → String) (id user org : ℕ) (dto : CreateTimeEntryLog) (new_id : ℕ)
      → Step s (add_log trim id user org dto new_id s).1
  unlogging : (id org : ℕ) → Step s (delete_log id org s).1
  capturing :
      (trim : String → String) (input : CaptureTaskCompletion) (now new_id new_log : ℕ)
      → Step s (capture_task_completion trim input now new_id new_log s)
  resolving :
      (id user org : ℕ) (dto : ResolvePendingTimeCapture) (now new_id new_log : ℕ)
      → All (λ (y : TimeEntry). y.id ≢ new_id) s.entries
      → All (λ (c : PendingTimeCapture). dto.duration_sec * 1000 ≤ c.completed_at) s.captures
      → Step s (resolve_pending_capture id user org dto now new_id new_log s).1

Step-Changes : {s t : Store} → Step s t → IsSound s.entries → Changes s.entries t.entries
Step-Changes {s} (starting user org dto now new_id fresh) h =
    start-Changes user org dto now new_id s h fresh
Step-Changes {s} (stopping user org now) h = also done (stop-Change user org now s h)
Step-Changes {s} (creating user org dto new_id fresh) h =
    also done (create-Change user org s dto new_id fresh)
Step-Changes {s} (updating id user org dto) h = also done (update-Change user org s id dto h)
Step-Changes {s} (deleting id user org) h = also done (delete-Change user org s id h)
Step-Changes {s} (logging trim id user org dto new_id) h =
    rw (add_log-entries trim id user org dto new_id s) done
Step-Changes {s} (unlogging id org) h = rw (delete_log-entries id org s) done
Step-Changes {s} (capturing trim input now new_id new_log) h =
    rw (capture_task_completion-entries trim input now new_id new_log s) done
Step-Changes {s} (resolving id user org dto now new_id new_log fresh late) h =
    also done (resolve-Change id user org dto now new_id new_log s fresh late)

pub data Reach (s : Store) : Store → Type 0 where
  here : Reach s s
  next : {t u : Store} → Reach s t → Step t u → Reach s u

-- Every sequence of calls that start and stop timers, create, update, delete and annotate entries,
-- and capture and resolve completed tasks, keeps the table sound: identifiers are distinct, at most one entry of a user runs in an
-- organisation, a running entry has no duration and is on no invoice, and the duration of a
-- finished entry is the time from its start to its end.
pub Reach-IsSound : {s t : Store} → Reach s t → IsSound s.entries → IsSound t.entries
Reach-IsSound here h = h
Reach-IsSound (next r st) h =
    let before = Reach-IsSound r h in Changes-IsSound (Step-Changes st before) before

-- From a sound table, every sequence of calls that start and stop timers, create, update, delete
-- and annotate entries, and capture and resolve completed tasks, leaves an entry that is on an
-- invoice exactly the row that it is.
pub Reach-locked :
    (i line : ℕ) (e : TimeEntry) {s t : Store}
    → Reach s t
    → IsSound s.entries
    → find_first (has_key entry_id i) s.entries ≡ some e
    → e.invoice_line_item_id ≡ some line
    → find_first (has_key entry_id i) t.entries ≡ some e
Reach-locked i line e here h found locked = found
Reach-locked i line e (next r st) h found locked =
    Changes-locked i line e (Step-Changes st (Reach-IsSound r h))
      (Reach-locked i line e r h found locked) locked
