-- ===== src/Tasks/History.antt =====
-- The calls of the service, one after another.
use pexlo_portal.Prelude.{ℕ, ◌≢◌, Option, List, Keyed, All}
use Prim.Native.String.{String}
use pexlo_portal.Ledger.{Task, DecisionVote, Store}
use pexlo_portal.Tasks.Creating.{CreateTask, CreateClientTask, create, create_for_client}
use pexlo_portal.Tasks.Changing.{UpdateTask, update, cancel_client_task, reorder, remove, task_id}
use pexlo_portal.Tasks.Voting.{vote, close_voting}
use pexlo_portal.Tasks.Ballots.{FairBallots}
use pexlo_portal.Tasks.Changes.{Change, Change-Keyed, Change-FairBallots, Change-Closed, Closed}
use pexlo_portal.Tasks.Effects.{
  create-Change, create_for_client-Change, remove-Change, cancel_client_task-Change, update-Change,
  vote-Change, close_voting-Change,
}
use pexlo_portal.Tasks.Order.{reorder-Change}

-- One call; a new task has a new identifier, and `allowed` says which tasks may be removed.
pub data Step (allowed : ℕ → Type 0) (s : Store) : Store → Type 0 where
  creating :
      (dto : CreateTask) (project org : ℕ) (by : Option ℕ) (new_id : ℕ)
      → All (λ (y : Task). y.id ≢ new_id) s.tasks
      → Step allowed s (create dto project org by new_id s).1
  requesting :
      (dto : CreateClientTask) (project user org new_id : ℕ)
      → All (λ (y : Task). y.id ≢ new_id) s.tasks
      → Step allowed s (create_for_client dto project user org new_id s).1
  updating :
      (trim : String → String) (id : ℕ) (dto : UpdateTask) (org : ℕ) (actor : Option ℕ)
      (now new_capture new_log : ℕ)
      → Step allowed s (update trim id dto org actor now new_capture new_log s).1
  cancelling : (id user org : ℕ) → Step allowed s (cancel_client_task id user org s).1
  reordering : (ids : List ℕ) (org : ℕ) → Step allowed s (reorder ids org s)
  removing : (id org : ℕ) → allowed id → Step allowed s (remove id org s).1
  voting : (id option user org : ℕ) → Step allowed s (vote id option user org s).1
  closing :
      (trim : String → String) (id org : ℕ) (actor : Option ℕ) (now new_capture new_log : ℕ)
      → Step allowed s (close_voting trim id org actor now new_capture new_log s).1

pub data Reach (allowed : ℕ → Type 0) (s : Store) : Store → Type 0 where
  here : Reach allowed s s
  next : {t u : Store} → Reach allowed s t → Step allowed t u → Reach allowed s u

Step-Change :
    {allowed : ℕ → Type 0} {s t : Store}
    → Step allowed s t
    → Keyed task_id s.tasks
    → Change allowed s t
Step-Change {s = s} (creating dto project org by new_id fresh) h =
    create-Change s dto project org by new_id fresh
Step-Change {s = s} (requesting dto project user org new_id fresh) h =
    create_for_client-Change s dto project user org new_id fresh
Step-Change {s = s} (updating trim id dto org actor now n m) h =
    update-Change s trim id dto org actor now n m
Step-Change {s = s} (cancelling id user org) h = cancel_client_task-Change s id user org
Step-Change {s = s} (reordering ids org) h = reorder-Change ids org s
Step-Change {s = s} (removing id org ok) h = remove-Change s id org ok
Step-Change {s = s} (voting id option user org) h = vote-Change s h id org option user
Step-Change {s = s} (closing trim id org actor now n m) h =
    close_voting-Change s h id org trim actor now n m

Reach-Keyed :
    {allowed : ℕ → Type 0} {s t : Store}
    → Reach allowed s t
    → Keyed task_id s.tasks
    → Keyed task_id t.tasks
Reach-Keyed here h = h
Reach-Keyed (next r step) h = let now = Reach-Keyed r h in Change-Keyed (Step-Change step now) now

-- Where tasks have distinct identifiers, and new ones get new identifiers, and there is at most one vote of a user on a task and every
-- vote is for an option that its task has, every sequence of the service's calls keeps it so: at
-- most one vote of a user on a task, and every vote for an option that its task still has.
pub Reach-FairBallots :
    {allowed : ℕ → Type 0} {s t : Store}
    → Reach allowed s t
    → Keyed task_id s.tasks
    → FairBallots s
    → FairBallots t
Reach-FairBallots here keyed h = h
Reach-FairBallots (next r step) keyed h =
    Change-FairBallots (Step-Change step (Reach-Keyed r keyed)) (Reach-FairBallots r keyed h)

-- Once the voting on a task has been closed, every sequence of calls that do not remove the task
-- leaves it closed since the same time, with the same votes.
pub Reach-Closed :
    (id c : ℕ) (vs : List DecisionVote) {s t : Store}
    → Reach (λ i. i ≢ id) s t
    → Keyed task_id s.tasks
    → Closed id c vs s
    → Closed id c vs t
Reach-Closed id c vs here keyed h = h
Reach-Closed id c vs (next r step) keyed h =
    Change-Closed id c vs (Step-Change step (Reach-Keyed r keyed)) (Reach-Closed id c vs r keyed h)
