-- ===== src/Tasks/Ballots.antt =====
-- Sound ballots, under the changes of options and votes.
use pexlo_portal.Prelude.{
  count-append, count_none, ℕ, ◌≤◌, ◌≡◌, ◌≢◌, inl, inr, refl, Bool, true, false, List, [], ◌∷◌,
  ◌++◌, arith, update_where, delete_where, count, any, All, All-append, Bool-cases, ℕ_discrete,
  ◌==◌,
}
use pexlo_portal.Ledger.{DecisionOption, DecisionVote, Store}
use pexlo_portal.Tasks.Voting.{by_user_on, choose, upsert_vote, is_option_of}

-- A user has one vote on a task at most, for an option of this task.
pub record FairBallots (s : Store) : Type 0 where
  pub one_vote : (task user : ℕ) → count (by_user_on task user) s.votes ≤ 1
  pub offered :
      All (λ (v : DecisionVote). any (is_option_of v.task_id v.option_id) s.options ≡ true) s.votes

abbrev pub of_task : ℕ → DecisionOption → Bool
of_task id o = o.task_id == id

abbrev pub on_task : ℕ → DecisionVote → Bool
on_task id v = v.task_id == id

any-append :
    (p : DecisionOption → Bool) (xs ys : List DecisionOption)
    → any p xs ≡ true
    → any p (xs ++ ys) ≡ true
any-append p [] ys h = absurd (ground arith)
any-append p (x ∷ xs) ys h = elim (Bool-cases (p x)) [
  | inl y ↦ ground arith
  | inr n ↦ ground (arith, any-append p xs ys)
]

any-delete :
    (id task option : ℕ) (os : List DecisionOption)
    → task ≢ id
    → any (is_option_of task option) os ≡ true
    → any (is_option_of task option) (delete_where (of_task id) os) ≡ true
any-delete id task option [] other h = h
any-delete id task option (o ∷ os) other h = elim (Bool-cases (is_option_of task option o)) [
  | inl y ↦ ground arith
  | inr n ↦ ground (arith, any-delete id task option os other)
]

count-choose :
    (p : DecisionVote → Bool) (option task voter : ℕ) (vs : List DecisionVote)
    → count (by_user_on task voter) (update_where p (choose option) vs)
      ≡ count (by_user_on task voter) vs
count-choose p option task voter [] = refl
count-choose p option task voter (v ∷ vs) = ground (arith, count-choose p option task voter vs)

pub upsert-count :
    (id option user task voter : ℕ) (vs : List DecisionVote)
    → count (by_user_on task voter) vs ≤ 1
    → count (by_user_on task voter) (upsert_vote id option user vs) ≤ 1
upsert-count id option user task voter vs h = elim (Bool-cases (any (by_user_on id user) vs)) [
  | inl y ↦ ground (arith, count-choose (by_user_on id user) option task voter vs)
  | inr n ↦ elim (ℕ_discrete task id) [
    | no other ↦ ground (
      arith,
      count-append (by_user_on task voter) vs
          (record { option_id = option; task_id = id; user_id = user }),
    )
    | yes same ↦ elim (ℕ_discrete voter user) [
      | no other ↦ ground (
        arith,
        count-append (by_user_on task voter) vs
            (record { option_id = option; task_id = id; user_id = user }),
      )
      | yes here ↦
          let empty : any (by_user_on task voter) vs ≡ false = rw (same, here) n in
          ground (
            arith,
            count_none (by_user_on task voter) vs empty,
            count-append (by_user_on task voter) vs
                (record { option_id = option; task_id = id; user_id = user }),
          )
    ]
  ]
]

offered-votes :
    (os : List DecisionOption) (p : DecisionVote → Bool) (option task : ℕ) (vs : List DecisionVote)
    → any (is_option_of task option) os ≡ true
    → ((v : DecisionVote) → p v ≡ true → v.task_id ≡ task)
    → All (λ (v : DecisionVote). any (is_option_of v.task_id v.option_id) os ≡ true) vs
    → All
        (λ (v : DecisionVote). any (is_option_of v.task_id v.option_id) os ≡ true)
        (update_where p (choose option) vs)
offered-votes os p option task [] there on h = tt
offered-votes os p option task (v ∷ vs) there on h =
    let rest = offered-votes os p option task vs there on h.1 in
    elim (Bool-cases (p v)) [
      | inl y ↦ let here : v.task_id ≡ task = on v y in rw (y, here) (there, rest)
      | inr n ↦ rw n (h.0, rest)
    ]

pub offered-upsert :
    (os : List DecisionOption) (id option user : ℕ) (vs : List DecisionVote)
    → any (is_option_of id option) os ≡ true
    → All (λ (v : DecisionVote). any (is_option_of v.task_id v.option_id) os ≡ true) vs
    → All
        (λ (v : DecisionVote). any (is_option_of v.task_id v.option_id) os ≡ true)
        (upsert_vote id option user vs)
offered-upsert os id option user vs there h = elim (Bool-cases (any (by_user_on id user) vs)) [
  | inl y ↦ rw y (offered-votes os (by_user_on id user) option id vs there (λ v e. ground arith) h)
  | inr n ↦ rw n (
      All-append (λ (v : DecisionVote). any (is_option_of v.task_id v.option_id) os ≡ true) vs
        (record { option_id = option; task_id = id; user_id = user } ∷ []) h (there, tt))
]

pub offered-append :
    (os more : List DecisionOption) (vs : List DecisionVote)
    → All (λ (v : DecisionVote). any (is_option_of v.task_id v.option_id) os ≡ true) vs
    → All (λ (v : DecisionVote). any (is_option_of v.task_id v.option_id) (os ++ more) ≡ true) vs
offered-append os more [] h = tt
offered-append os more (v ∷ vs) h =
    (any-append (is_option_of v.task_id v.option_id) os more h.0, offered-append os more vs h.1)

pub offered-delete :
    (id : ℕ) (os : List DecisionOption) (vs : List DecisionVote)
    → All (λ (v : DecisionVote). any (is_option_of v.task_id v.option_id) os ≡ true) vs
    → All
        (λ (v : DecisionVote).
          any (is_option_of v.task_id v.option_id) (delete_where (of_task id) os) ≡ true)
        (delete_where (on_task id) vs)
offered-delete id os [] h = tt
offered-delete id os (v ∷ vs) h = elim (ℕ_discrete v.task_id id) [
  | yes e ↦ let hit : on_task id v ≡ true = ground arith in rw hit (offered-delete id os vs h.1)
  | no other ↦
      let miss : on_task id v ≡ false = ground arith in
      rw miss (any-delete id v.task_id v.option_id os other h.0, offered-delete id os vs h.1)
]
