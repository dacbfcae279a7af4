-- ===== src/Tasks/Changes.antt =====
-- What one call may do to tasks, options and votes, and that ballots stay sound and closed votes
-- final.
use pexlo_portal.Prelude.{
  count-delete, ℕ, ◌≡◌, ◌≢◌, ◌∙◌, inl, inr, refl, sym, ap, subst, true, none, some, List, [], ◌∷◌,
  ◌++◌, map, arith, find_first, find_first-append_old, find_many, update_where, delete_where, any,
  has_key, Keyed, Keyed-append, Keyed-delete, find_by_key-delete, All, Bool-cases, ℕ_discrete,
}
use pexlo_portal.Ledger.{Task, DecisionOption, DecisionVote, Store}
use pexlo_portal.Tasks.Changing.{task_id}
use pexlo_portal.Tasks.Ballots.{
  FairBallots, of_task, on_task, upsert-count, offered-upsert, offered-append, offered-delete,
}
use pexlo_portal.Tasks.Voting.{by_user_on, choose, upsert_vote, is_option_of}

-- `allowed` says which tasks may be removed.
pub data Change (allowed : ℕ → Type 0) (s t : Store) : Type 0 where
  rewritten :
      (g : Task → Task)
      → t.tasks ≡ map g s.tasks
      → t.options ≡ s.options
      → t.votes ≡ s.votes
      → ((x : Task) → (g x).id ≡ x.id)
      → ((i c : ℕ) (x : Task)
          → find_first (has_key task_id i) s.tasks ≡ some x
          → x.closed_at ≡ some c
          → (g x).closed_at ≡ some c)
      → Change allowed s t
  added :
      (x : Task) (os : List DecisionOption)
      → t.tasks ≡ s.tasks ++ x ∷ []
      → t.options ≡ s.options ++ os
      → t.votes ≡ s.votes
      → All (λ (y : Task). y.id ≢ x.id) s.tasks
      → Change allowed s t
  removed :
      (id : ℕ)
      → t.tasks ≡ delete_where (has_key task_id id) s.tasks
      → t.options ≡ delete_where (of_task id) s.options
      → t.votes ≡ delete_where (on_task id) s.votes
      → allowed id
      → Change allowed s t
  voted :
      (id option user : ℕ)
      → t.tasks ≡ s.tasks
      → t.options ≡ s.options
      → t.votes ≡ upsert_vote id option user s.votes
      → ((x : Task) → find_first (has_key task_id id) s.tasks ≡ some x → x.closed_at ≡ none)
      → any (is_option_of id option) s.options ≡ true
      → Change allowed s t

module _ (g : Task → Task) (same_id : (x : Task) → (g x).id ≡ x.id) where
  find_first-map :
      (i : ℕ) (xs : List Task)
      → find_first (has_key task_id i) (map g xs)
        ≡ elim (find_first (has_key task_id i) xs) [ none ↦ none | some x ↦ some (g x) ]
  find_first-map i [] = refl
  find_first-map i (x ∷ xs) = ground (arith, same_id x, find_first-map i xs)

  All-map :
      (k : ℕ) (xs : List Task)
      → All (λ (y : Task). y.id ≢ k) xs
      → All (λ (y : Task). y.id ≢ k) (map g xs)
  All-map k [] h = tt
  All-map k (x ∷ xs) h = (ground (arith, same_id x), All-map k xs h.1)

  Keyed-map : (xs : List Task) → Keyed task_id xs → Keyed task_id (map g xs)
  Keyed-map [] h = tt
  Keyed-map (x ∷ xs) h = (
    subst (λ k. All (λ (y : Task). y.id ≢ k) (map g xs)) (sym (same_id x)) (All-map x.id xs h.0),
    Keyed-map xs h.1,
  )

pub Change-Keyed :
    {allowed : ℕ → Type 0} {s t : Store}
    → Change allowed s t
    → Keyed task_id s.tasks
    → Keyed task_id t.tasks
Change-Keyed {s = s} (rewritten g e o v same closed) h = rw e (Keyed-map g same s.tasks h)
Change-Keyed {s = s} (added x os e o v fresh) h = rw e (Keyed-append task_id s.tasks x fresh h)
Change-Keyed {s = s} (removed id e o v ok) h =
    rw e (Keyed-delete task_id (has_key task_id id) s.tasks h)
Change-Keyed (voted id option user e o v open_yet offered) h = rw e h

pub Change-FairBallots :
    {allowed : ℕ → Type 0} {s t : Store} → Change allowed s t → FairBallots s → FairBallots t
Change-FairBallots (rewritten g e o v same closed) h = record {
  one_vote = rw v h.one_vote;
  offered = rw (o, v) h.offered;
}
Change-FairBallots {s = s} (added x os e o v fresh) h = record {
  one_vote = rw v h.one_vote;
  offered = rw (o, v) (offered-append s.options os s.votes h.offered);
}
Change-FairBallots {s = s} (removed id e o v ok) h = record {
  one_vote = λ task user.
      let fewer = count-delete (by_user_on task user) (on_task id) s.votes in
      let before = h.one_vote task user in rw v (omega arith);
  offered = rw (o, v) (offered-delete id s.options s.votes h.offered);
}
Change-FairBallots {s = s} (voted id option user e o v open_yet there) h = record {
  one_vote =
      λ task voter. rw v (upsert-count id option user task voter s.votes (h.one_vote task voter));
  offered = rw (o, v) (offered-upsert s.options id option user s.votes there h.offered);
}

-- The task `id` is closed since `c`, and has the votes `vs`.
abbrev pub Closed : ℕ → ℕ → List DecisionVote → Store → Type 0
Closed id c vs s =
    (x : Task) × (find_first (has_key task_id id) s.tasks ≡ some x)
    × (x.closed_at ≡ some c)
    × (find_many (on_task id) s.votes ≡ vs)

votes-delete_other :
    (id j : ℕ) (vs : List DecisionVote)
    → j ≢ id
    → find_many (on_task id) (delete_where (on_task j) vs) ≡ find_many (on_task id) vs
votes-delete_other id j [] other = refl
votes-delete_other id j (v ∷ vs) other = ground (arith, votes-delete_other id j vs other)

votes-choose_other :
    (id j option user : ℕ) (vs : List DecisionVote)
    → j ≢ id
    → find_many (on_task id) (update_where (by_user_on j user) (choose option) vs)
      ≡ find_many (on_task id) vs
votes-choose_other id j option user [] other = refl
votes-choose_other id j option user (v ∷ vs) other =
    ground (arith, votes-choose_other id j option user vs other)

votes-append_other :
    (id : ℕ) (w : DecisionVote) (vs : List DecisionVote)
    → w.task_id ≢ id
    → find_many (on_task id) (vs ++ w ∷ []) ≡ find_many (on_task id) vs
votes-append_other id w [] other = ground arith
votes-append_other id w (v ∷ vs) other = ground (arith, votes-append_other id w vs other)

votes-upsert_other :
    (id j option user : ℕ) (vs : List DecisionVote)
    → j ≢ id
    → find_many (on_task id) (upsert_vote j option user vs) ≡ find_many (on_task id) vs
votes-upsert_other id j option user vs other = elim (Bool-cases (any (by_user_on j user) vs)) [
  | inl y ↦ rw y (votes-choose_other id j option user vs other)
  | inr n ↦
      rw n (
        votes-append_other id (record { option_id = option; task_id = j; user_id = user }) vs other)
]

pub Change-Closed :
    {s t : Store} (id c : ℕ) (vs : List DecisionVote)
    → Change (λ i. i ≢ id) s t
    → Closed id c vs s
    → Closed id c vs t
Change-Closed {s = s} id c vs (rewritten g e o v same closed) (x, found, shut, votes) = (
  g x,
  ap (find_first (has_key task_id id)) e ∙ find_first-map g same id s.tasks ∙ (rw found refl),
  closed id c x found shut,
  ap (find_many (on_task id)) v ∙ votes,
)
Change-Closed {s = s} id c vs (added y os e o v fresh) (x, found, shut, votes) = (
  x,
  ap (find_first (has_key task_id id)) e
      ∙ find_first-append_old (has_key task_id id) s.tasks (y ∷ []) x found,
  shut,
  ap (find_many (on_task id)) v ∙ votes,
)
Change-Closed {s = s} id c vs (removed j e o v other) (x, found, shut, votes) = (
  x,
  ap (find_first (has_key task_id id)) e
      ∙ find_by_key-delete task_id id j s.tasks (λ h. other (sym h))
      ∙ found,
  shut,
  ap (find_many (on_task id)) v ∙ votes-delete_other id j s.votes other ∙ votes,
)
Change-Closed {s = s} id c vs (voted j option user e o v open_yet there) (x, found, shut, votes) =
    elim (ℕ_discrete j id) [
      | yes same ↦
          let not_shut : x.closed_at ≡ none = open_yet x (rw same found) in absurd (ground arith)
      | no other ↦ (
        x,
        ap (find_first (has_key task_id id)) e ∙ found,
        shut,
        ap (find_many (on_task id)) v ∙ votes-upsert_other id j option user s.votes other ∙ votes,
      )
    ]
