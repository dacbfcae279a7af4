-- ===== src/Tasks/Effects.antt =====
-- Each call of the service keeps to `Change`.
use pexlo_portal.Prelude.{
  ℕ, ◌≡◌, ◌≢◌, ◌∙◌, inl, inr, refl, sym, ap, subst, Bool, true, Option, none, some, [], ◌∷◌, ◌++◌,
  arith, append_nothing, find_first, find_first_sound, find_many, update_where, has_key, Keyed,
  row_by_key, All, Bool-cases, if◌then◌else◌,
}
use Prim.Native.String.{String}
use pexlo_portal.Ledger.{Task, Store, decision_closed}
use pexlo_portal.TimeEntries.Captures.{capture_task_completion}
use pexlo_portal.Tasks.Creating.{
  CreateTask, CreateClientTask, create, create_for_client, new_task, client_task, options_of,
  next_order, in_project,
}
use pexlo_portal.Tasks.Changing.{
  UpdateTask, update, cancel_client_task, remove, task_id, edited, cancel, completes, completion,
  tell_assigned, status_changes,
}
use pexlo_portal.Tasks.Voting.{vote, close_voting, is_decision_of, close}
use pexlo_portal.Tasks.Changes.{Change, rewritten, added, removed, voted}
use pexlo_portal.Tasks.Operations.{
  SameTables, same_refl, SameTables-Change, SameTables-trans, update_where-map, create-after,
  create_for_client-after, cancel_client_task-after, remove-after, vote-after, close_voting-after,
  update-after, captured_if, told_if, captured_if-SameTables, told_if-SameTables,
  tell_assigned-SameTables, capture-SameTables,
}

-- The rows that `p` picks are rewritten, and then other tables alone.
module _ {allowed : ℕ → Type 0} (s : Store) (p : Task → Bool) (f : Task → Task)
    (same_id : (x : Task) → (f x).id ≡ x.id)
    (stays : (i c : ℕ) (x : Task)
      → find_first (has_key task_id i) s.tasks ≡ some x
      → p x ≡ true
      → x.closed_at ≡ some c
      → (f x).closed_at ≡ some c) where
  where-Change :
      (u t : Store)
      → u.tasks ≡ update_where p f s.tasks
      → u.options ≡ s.options
      → u.votes ≡ s.votes
      → SameTables u t
      → Change allowed s t
  where-Change u t e o v h =
      rewritten (λ x. if p x then f x else x) (h.same_tasks ∙ e ∙ update_where-map p f s.tasks)
        (h.same_options ∙ o) (h.same_votes ∙ v) (λ x. ground (arith, same_id x))
        (λ i c x found shut. elim (Bool-cases (p x)) [
          | inl y ↦ rw y (stays i c x found y shut)
          | inr n ↦ rw n shut
        ])

module _ (s : Store) (keyed : Keyed task_id s.tasks) (id org : ℕ) where
  the_decision :
      (x y : Task) (i : ℕ)
      → find_first (is_decision_of id org) s.tasks ≡ some x
      → find_first (has_key task_id i) s.tasks ≡ some y
      → i ≡ id
      → x ≡ y
  the_decision x y i found here same =
      let row = row_by_key task_id (is_decision_of id org) s.tasks x keyed found in
      let own : x.id ≡ id =
        ground (arith, find_first_sound (is_decision_of id org) s.tasks x found) in
      let row' : find_first (has_key task_id id) s.tasks ≡ some x =
        subst (λ k. find_first (has_key task_id k) s.tasks ≡ some x) own row in
      let here' : find_first (has_key task_id id) s.tasks ≡ some y =
        subst (λ k. find_first (has_key task_id k) s.tasks ≡ some y) same here in
      cc

module _ {allowed : ℕ → Type 0} (s : Store) where
  to_Change : {t : Store} → t ≡ s → Change allowed s t
  to_Change e = SameTables-Change (rw e (same_refl s))

  pub create-Change :
      (dto : CreateTask) (project org : ℕ) (by : Option ℕ) (new_id : ℕ)
      → All (λ (y : Task). y.id ≢ new_id) s.tasks
      → Change allowed s (create dto project org by new_id s).1
  create-Change dto project org by new_id fresh = elim (create-after s dto project org by new_id) [
    | inl e ↦ to_Change e
    | inr e ↦
        added
          (new_task dto project org by (next_order (find_many (in_project project org) s.tasks))
            new_id)
          (options_of new_id dto) (ap (λ (t : Store). t.tasks) e) (ap (λ (t : Store). t.options) e)
          (ap (λ (t : Store). t.votes) e) fresh
  ]

  pub create_for_client-Change :
      (dto : CreateClientTask) (project user org new_id : ℕ)
      → All (λ (y : Task). y.id ≢ new_id) s.tasks
      → Change allowed s (create_for_client dto project user org new_id s).1
  create_for_client-Change dto project user org new_id fresh =
      elim (create_for_client-after s dto project user org new_id) [
        | inl e ↦ to_Change e
        | inr e ↦
            added
              (client_task dto project user org
                (next_order (find_many (in_project project org) s.tasks)) new_id)
              [] (ap (λ (t : Store). t.tasks) e)
              (ap (λ (t : Store). t.options) e ∙ sym (append_nothing s.options))
              (ap (λ (t : Store). t.votes) e) fresh
      ]

  pub remove-Change : (id org : ℕ) → allowed id → Change allowed s (remove id org s).1
  remove-Change id org ok = elim (remove-after s id org) [
    | inl e ↦ to_Change e
    | inr e ↦
        removed id (ap (λ (t : Store). t.tasks) e) (ap (λ (t : Store). t.options) e)
          (ap (λ (t : Store). t.votes) e) ok
  ]

  pub cancel_client_task-Change :
      (id user org : ℕ) → Change allowed s (cancel_client_task id user org s).1
  cancel_client_task-Change id user org = elim (cancel_client_task-after s id user org) [
    | inl e ↦ to_Change e
    | inr e ↦
        where-Change s (has_key task_id id) cancel (λ x. refl) (λ i c x found hit shut. shut)
          (cancel_client_task id user org s).1 (cancel_client_task id user org s).1
          (ap (λ (t : Store). t.tasks) e) (ap (λ (t : Store). t.options) e)
          (ap (λ (t : Store). t.votes) e) (same_refl (cancel_client_task id user org s).1)
  ]

  pub update-Change :
      (trim : String → String) (id : ℕ) (dto : UpdateTask) (org : ℕ) (actor : Option ℕ)
      (now n m : ℕ)
      → Change allowed s (update trim id dto org actor now n m s).1
  update-Change trim id dto org actor now n m =
      elim (update-after s trim org actor now n m id dto) [
        | inl e ↦ to_Change e
        | inr (x, found, e) ↦
            let u : Store = record s {
              tasks = update_where (has_key task_id id) (edited dto) s.tasks;
            } in
            let v : Store = told_if s trim org actor now n m (status_changes dto x) id u in
            let w : Store = captured_if s trim org actor now n m (completes dto x) x v in
            let h : SameTables u (tell_assigned dto x w) =
              SameTables-trans
                (SameTables-trans
                  (told_if-SameTables s trim org actor now n m (status_changes dto x) id u)
                  (captured_if-SameTables s trim org actor now n m (completes dto x) x v))
                (tell_assigned-SameTables dto x w) in
            rw e (
              where-Change s (has_key task_id id) (edited dto) (λ y. refl)
                (λ i c y here hit shut. shut) u (tell_assigned dto x w) refl refl refl h)
      ]

  module _ (keyed : Keyed task_id s.tasks) (id org : ℕ) where
    pub vote-Change : (option user : ℕ) → Change allowed s (vote id option user org s).1
    vote-Change option user = elim (vote-after s id option user org) [
      | inl e ↦ to_Change e
      | inr (x, found, not_shut, there, e) ↦
          voted id option user (ap (λ (t : Store). t.tasks) e) (ap (λ (t : Store). t.options) e)
            (ap (λ (t : Store). t.votes) e)
            (λ y here.
              subst (λ (z : Task). z.closed_at ≡ none)
                (the_decision s keyed id org x y id found here refl) not_shut)
            there
    ]

    pub close_voting-Change :
        (trim : String → String) (actor : Option ℕ) (now n m : ℕ)
        → Change allowed s (close_voting trim id org actor now n m s).1
    close_voting-Change trim actor now n m = elim (close_voting-after s trim org actor now n m id) [
      | inl e ↦ to_Change e
      | inr (x, found, not_shut, e) ↦
          let u : Store = record s {
            tasks = update_where (has_key task_id id) (close now) s.tasks;
            notices = s.notices ++ decision_closed id ∷ [];
          } in
          rw e (
            where-Change s (has_key task_id id) (close now) (λ y. refl)
              (λ i c y here hit shut.
                let own : i ≡ id =
                  ground (arith, find_first_sound (has_key task_id i) s.tasks y here) in
                let open_yet : y.closed_at ≡ none =
                  subst (λ (z : Task). z.closed_at ≡ none)
                    (the_decision s keyed id org x y i found here own) not_shut in
                absurd (ground arith))
              u (capture_task_completion trim (completion x org actor) now n m u) refl refl refl
              (capture-SameTables trim (completion x org actor) now n m u))
    ]
