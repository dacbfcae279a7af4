-- ===== src/Tasks/Operations.antt =====
-- Each call of the service, as a change of tasks, options and votes.
use pexlo_portal.Prelude.{
  ℕ, ◌≡◌, ◌⊎◌, ◌∙◌, inl, inr, refl, sym, ap, Bool, true, false, Option, none, some, List, [], ◌∷◌,
  ◌++◌, map, arith, find_first, find_many, ◌&&◌, update_where, any, has_key, Bool-cases,
  Option-cases, if◌then◌else◌, ◌==◌,
}
use Prim.Native.String.{String}
use pexlo_portal.Ledger.{
  Task, ProjectClient, Store, TimeEntry, task_created, client_request_created, task_status_changed,
  decision_closed, task_cancelled,
}
use pexlo_portal.TimeEntries.Captures.{
  CaptureTaskCompletion, capture_task_completion, note_done, last_started, runs_in, is_open,
}
use pexlo_portal.Tasks.Creating.{
  CreateTask, CreateClientTask, create, create_for_client, new_task, client_task, options_of,
  next_order, in_project,
}
use pexlo_portal.Tasks.Changing.{
  UpdateTask, update, cancel_client_task, remove, task_id, owned, edited, cancel, may_assign,
  completes, completion, tell_assigned, status_changes, drop_task, same_status, same_status,
}
use pexlo_portal.Tasks.Voting.{vote, close_voting, is_decision_of, close, is_option_of, upsert_vote}
use pexlo_portal.Tasks.Changes.{Change, rewritten}

-- The tables that a call leaves as they were.
pub record SameTables (s t : Store) : Type 0 where
  pub same_tasks : t.tasks ≡ s.tasks
  pub same_options : t.options ≡ s.options
  pub same_votes : t.votes ≡ s.votes

pub same_refl : (s : Store) → SameTables s s
same_refl s = record { same_tasks = refl; same_options = refl; same_votes = refl }

map_nothing : (xs : List Task) → map (λ x. x) xs ≡ xs
map_nothing [] = refl
map_nothing (x ∷ xs) = ap (λ v. x ∷ v) (map_nothing xs)

pub SameTables-Change : {allowed : ℕ → Type 0} {s t : Store} → SameTables s t → Change allowed s t
SameTables-Change {s = s} h =
    rewritten (λ x. x) (h.same_tasks ∙ sym (map_nothing s.tasks)) h.same_options h.same_votes
      (λ x. refl) (λ i c x found shut. shut)

pub update_where-map :
    (p : Task → Bool) (f : Task → Task) (xs : List Task)
    → update_where p f xs ≡ map (λ x. if p x then f x else x) xs
update_where-map p f [] = refl
update_where-map p f (x ∷ xs) = ap (λ v. (if p x then f x else x) ∷ v) (update_where-map p f xs)

note_done-SameTables :
    (input : CaptureTaskCompletion) (o : Option TimeEntry) (n : ℕ) (s : Store)
    → SameTables s (note_done input o n s)
note_done-SameTables input none n s = same_refl s
note_done-SameTables input (some e) n s = record {
  same_tasks = refl;
  same_options = refl;
  same_votes = refl;
}

pub capture-SameTables :
    (trim : String → String) (input : CaptureTaskCompletion) (now n m : ℕ) (s : Store)
    → SameTables s (capture_task_completion trim input now n m s)
unfolding capture_task_completion
capture-SameTables trim input now n m s =
    let running =
      last_started (find_many (runs_in input.organization_id input.project_id) s.entries) in
    let noted = note_done-SameTables input running m s in
    elim (Bool-cases (any (is_open input) s.captures)) [
      | inl e ↦ rw e (same_refl s)
      | inr e ↦ rw e (record {
        same_tasks = noted.same_tasks;
        same_options = noted.same_options;
        same_votes = noted.same_votes;
      })
    ]

module _ (s : Store) where
  pub create-after :
      (dto : CreateTask) (project org : ℕ) (by : Option ℕ) (new_id : ℕ)
      → let order = next_order (find_many (in_project project org) s.tasks) in
        ((create dto project org by new_id s).1 ≡ s)
        ⊎ ((create dto project org by new_id s).1 ≡ record s {
          tasks = s.tasks ++ new_task dto project org by order new_id ∷ [];
          options = s.options ++ options_of new_id dto;
          notices = s.notices ++ task_created project ∷ [];
        })
  unfolding create
  create-after dto project org by new_id = ground arith

  pub create_for_client-after :
      (dto : CreateClientTask) (project user org new_id : ℕ)
      → let order = next_order (find_many (in_project project org) s.tasks) in
        ((create_for_client dto project user org new_id s).1 ≡ s)
        ⊎ ((create_for_client dto project user org new_id s).1 ≡ record s {
          tasks = s.tasks ++ client_task dto project user org order new_id ∷ [];
          notices = s.notices ++ client_request_created project ∷ [];
        })
  unfolding create_for_client
  create_for_client-after dto project user org new_id = ground arith

  pub cancel_client_task-after :
      (id user org : ℕ)
      → ((cancel_client_task id user org s).1 ≡ s)
        ⊎ ((cancel_client_task id user org s).1 ≡ record s {
          tasks = update_where (has_key task_id id) cancel s.tasks;
          notices = s.notices ++ task_status_changed id ∷ [];
        })
  unfolding cancel_client_task
  cancel_client_task-after id user org = ground arith

  pub remove-after :
      (id org : ℕ) → ((remove id org s).1 ≡ s) ⊎ ((remove id org s).1 ≡ drop_task id s)
  unfolding remove
  remove-after id org = ground arith

  pub vote-after :
      (id option user org : ℕ)
      → ((vote id option user org s).1 ≡ s)
        ⊎ ((x : Task) × (find_first (is_decision_of id org) s.tasks ≡ some x)
            × (x.closed_at ≡ none)
            × (any (is_option_of id option) s.options ≡ true)
            × ((vote id option user org s).1
                ≡ record s { votes = upsert_vote id option user s.votes }))
  unfolding vote
  vote-after id option user org = elim (Option-cases (find_first (is_decision_of id org) s.tasks)) [
    | inl e ↦ inl (ground arith)
    | inr (x, e) ↦ elim (Option-cases x.closed_at) [
      | inr (c, k) ↦ inl (ground arith)
      | inl k ↦ elim (Bool-cases (any (is_option_of id option) s.options)) [
        | inr n ↦ inl (ground arith)
        | inl y ↦
            elim (Bool-cases (
              any (λ (c : ProjectClient). c.project_id == x.project_id && c.user_id == user)
                s.clients)) [ inr n ↦ inl (ground arith) | inl a ↦ inr (x, e, k, y, ground arith) ]
      ]
    ]
  ]

  module _ (trim : String → String) (org : ℕ) (actor : Option ℕ) (now n m : ℕ) where
    pub close_voting-after :
        (id : ℕ)
        → ((close_voting trim id org actor now n m s).1 ≡ s)
          ⊎ ((x : Task) × (find_first (is_decision_of id org) s.tasks ≡ some x)
              × (x.closed_at ≡ none)
              × ((close_voting trim id org actor now n m s).1
                  ≡ capture_task_completion trim (completion x org actor) now n m (record s {
                    tasks = update_where (has_key task_id id) (close now) s.tasks;
                    notices = s.notices ++ decision_closed id ∷ [];
                  })))
    unfolding close_voting
    close_voting-after id = elim (Option-cases (find_first (is_decision_of id org) s.tasks)) [
      | inl e ↦ inl (ground arith)
      | inr (x, e) ↦ elim (Option-cases x.closed_at) [
        | inr (c, k) ↦ inl (ground arith)
        | inl k ↦ elim (Bool-cases (same_status x.status task_cancelled)) [
          | inl y ↦ inl (ground arith)
          | inr y ↦ inr (x, e, k, ground arith)
        ]
      ]
    ]

    pub captured_if : Bool → Task → Store → Store
    captured_if b x t =
        if b then capture_task_completion trim (completion x org actor) now n m t else t

    pub told_if : Bool → ℕ → Store → Store
    told_if b id t =
        if b then record t { notices = t.notices ++ task_status_changed id ∷ [] } else t

    pub update-after :
        (id : ℕ) (dto : UpdateTask)
        → ((update trim id dto org actor now n m s).1 ≡ s)
          ⊎ ((x : Task) × (find_first (owned id org) s.tasks ≡ some x)
              × ((update trim id dto org actor now n m s).1
                  ≡ tell_assigned dto x (
                      captured_if (completes dto x) x (
                        told_if (status_changes dto x) id (record s {
                          tasks = update_where (has_key task_id id) (edited dto) s.tasks;
                        })))))
    unfolding update captured_if told_if
    update-after id dto = elim (Option-cases (find_first (owned id org) s.tasks)) [
      | inl e ↦ inl (ground arith)
      | inr (x, e) ↦ elim (Bool-cases (may_assign org dto.assignee_id s)) [
        | inr k ↦ inl (ground arith)
        | inl k ↦ inr (x, e, ground arith)
      ]
    ]

    pub captured_if-SameTables :
        (b : Bool) (x : Task) (t : Store) → SameTables t (captured_if b x t)
    unfolding captured_if
    captured_if-SameTables false x t = same_refl t
    captured_if-SameTables true x t = capture-SameTables trim (completion x org actor) now n m t

    pub told_if-SameTables : (b : Bool) (id : ℕ) (t : Store) → SameTables t (told_if b id t)
    unfolding told_if
    told_if-SameTables false id t = same_refl t
    told_if-SameTables true id t = record {
      same_tasks = refl;
      same_options = refl;
      same_votes = refl;
    }

pub SameTables-trans : {s t u : Store} → SameTables s t → SameTables t u → SameTables s u
SameTables-trans h k = record {
  same_tasks = k.same_tasks ∙ h.same_tasks;
  same_options = k.same_options ∙ h.same_options;
  same_votes = k.same_votes ∙ h.same_votes;
}

pub tell_assigned-SameTables :
    (dto : UpdateTask) (x : Task) (s : Store) → SameTables s (tell_assigned dto x s)
tell_assigned-SameTables dto x s = ground arith
