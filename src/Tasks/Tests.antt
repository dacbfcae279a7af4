-- ===== src/Tasks/Tests.antt =====
-- Concrete tasks, decisions and votes.
use pexlo_portal.Prelude.{
  ℕ, ◌≡◌, ◌≢◌, ◌≤◌, refl, Option, none, some, [], ◌∷◌, arith, find_first, has_key, Keyed, count,
  if◌then◌else◌, ◌==◌,
}
use pexlo_portal.Ledger.{Task, TaskType, TaskStatus, DecisionOption, DecisionVote, Store}
use pexlo_portal.Invoices.Tests.{store}
use pexlo_portal.Tasks.Changing.{UpdateTask, update, reorder, remove, task_id, put_at}
use pexlo_portal.Tasks.Voting.{vote, close_voting, by_user_on}
use pexlo_portal.Tasks.Ballots.{FairBallots}
use pexlo_portal.Tasks.Changes.{Closed}
use pexlo_portal.Tasks.Order.{last_index, reorder-exact}
use pexlo_portal.Tasks.History.{
  Reach, here, next, updating, removing, voting, closing, Reach-FairBallots, Reach-Closed,
}

abbrev task : ℕ → TaskType → Option ℕ → Task
task id type closed = record {
  id = id;
  title = "Logo";
  description = none;
  due_date = none;
  status = TaskStatus.task_open;
  requested_by_id = none;
  assignee_id = none;
  order = 0;
  type = type;
  question = some "Which one?";
  closed_at = closed;
  project_id = 5;
  organization_id = 1;
}

abbrev choice : ℕ → DecisionOption
choice id = record { id = id; task_id = 10; label = "Blue"; order = 0 }

abbrev ballot : ℕ → ℕ → DecisionVote
ballot option user = record { option_id = option; task_id = 10; user_id = user }

abbrev open_poll : Store
open_poll = record (store [] [] []) {
  tasks = task 10 TaskType.decision none ∷ task 11 TaskType.checkbox none ∷ [];
  options = choice 20 ∷ choice 21 ∷ [];
  votes = ballot 20 8 ∷ [];
}

open_poll-Keyed : Keyed task_id open_poll.tasks
open_poll-Keyed = ((ground arith, tt), (tt, tt))

one_vote_each : (id user : ℕ) → count (by_user_on id user) open_poll.votes ≤ 1
one_vote_each id user = ground arith

open_poll-FairBallots : FairBallots open_poll
open_poll-FairBallots = record { one_vote = one_vote_each; offered = (refl, tt) }

-- The client votes again, voting is closed, and another vote comes late.
abbrev polled : Store
polled =
    (vote 10 20 8 1 (close_voting (λ t. t) 10 1 none 5000 30 40 (vote 10 21 8 1 open_poll).1).1).1

polling : Reach (λ i. Unit) open_poll polled
polling =
    next (next (next here (voting 10 21 8 1)) (closing (λ t. t) 10 1 none 5000 30 40))
      (voting 10 20 8 1)

Reach-FairBallots_example : FairBallots polled
Reach-FairBallots_example = Reach-FairBallots polling open_poll-Keyed open_poll-FairBallots

polled_test : polled.votes ≡ ballot 21 8 ∷ []
unfolding vote close_voting
polled_test = refl

abbrev closed_poll : Store
closed_poll = record open_poll {
  tasks = task 10 TaskType.decision (some 5000) ∷ task 11 TaskType.checkbox none ∷ [];
}

closed_poll-Keyed : Keyed task_id closed_poll.tasks
closed_poll-Keyed = ((ground arith, tt), (tt, tt))

abbrev reopened : UpdateTask
reopened = record {
  title = none;
  description = none;
  due_date = none;
  status = some TaskStatus.task_open;
  assignee_id = none;
}

-- The other task is removed, the closed one is set to open, and a vote comes late.
abbrev later : Store
later =
    (vote 10 21 9 1 (update (λ t. t) 10 reopened 1 none 6000 31 41 (remove 11 1 closed_poll).1).1).1

keeping : Reach (λ i. i ≢ 10) closed_poll later
keeping =
    next
      (next (next here (removing 11 1 (λ e. absurd (ground arith))))
        (updating (λ t. t) 10 reopened 1 none 6000 31 41))
      (voting 10 21 9 1)

Reach-Closed_example : Closed 10 5000 (ballot 20 8 ∷ []) later
Reach-Closed_example =
    Reach-Closed 10 5000 (ballot 20 8 ∷ []) keeping closed_poll-Keyed
      (task 10 TaskType.decision (some 5000), refl, refl, refl)

reorder-exact_example :
    find_first (has_key task_id 10) (reorder (11 ∷ 10 ∷ []) 1 open_poll).tasks
    ≡ some (
        if 1 == 1
        then elim (last_index 0 10 (11 ∷ 10 ∷ [])) [
          | none ↦ task 10 TaskType.decision none
          | some k ↦ put_at k (task 10 TaskType.decision none)
        ]
        else task 10 TaskType.decision none)
reorder-exact_example =
    reorder-exact (11 ∷ 10 ∷ []) 1 10 (task 10 TaskType.decision none) open_poll refl
