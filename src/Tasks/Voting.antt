-- ===== src/Tasks/Voting.antt =====
-- `vote` and `closeVoting`.
use pexlo_portal.Prelude.{
  ℕ, Bool, not, Option, some, List, [], ◌∷◌, ◌++◌, ◌==◌, ◌&&◌, if◌then◌else◌, find_first,
  update_where, any, is_some, has_key,
}
use Prim.Native.String.{String}
use pexlo_portal.Service.{
  Action, gets, throw_if, or_throw, modify, not_found, forbidden, bad_request, ◌>>=◌, ◌>>◌,
}
use pexlo_portal.Ledger.{
  ProjectClient, Task, task_done, task_cancelled, DecisionOption, DecisionVote, Store,
  decision_closed,
}
use pexlo_portal.TimeEntries.Captures.{capture_task_completion}
use pexlo_portal.Tasks.Changing.{task_id, owned, same_status, is_checkbox, completion}

-- `where: { id: taskId, organizationId: orgId, type: "decision" }`
abbrev pub is_decision_of : ℕ → ℕ → Task → Bool
is_decision_of id org t = owned id org t && not (is_checkbox t.type)

abbrev pub by_user_on : ℕ → ℕ → DecisionVote → Bool
by_user_on task user v = v.task_id == task && v.user_id == user

abbrev pub choose : ℕ → DecisionVote → DecisionVote
choose option v = record v { option_id = option }

-- `upsert`, under the unique index on the task and the user.
abbrev pub upsert_vote : ℕ → ℕ → ℕ → List DecisionVote → List DecisionVote
upsert_vote task option user vs =
    if any (by_user_on task user) vs
    then update_where (by_user_on task user) (choose option) vs
    else vs ++ record { option_id = option; task_id = task; user_id = user } ∷ []

abbrev pub is_option_of : ℕ → ℕ → DecisionOption → Bool
is_option_of task id o = o.id == id && o.task_id == task

unfoldable pub vote : ℕ → ℕ → ℕ → ℕ → Action Store (Unit {0})
vote id option user org = do
  found ← gets (λ s. find_first (is_decision_of id org) s.tasks)
  task ← or_throw found not_found
  throw_if (is_some task.closed_at) bad_request
  assigned ← gets (λ s.
      any (λ (c : ProjectClient). c.project_id == task.project_id && c.user_id == user) s.clients)
  throw_if (not assigned) forbidden
  offered ← gets (λ s. any (is_option_of id option) s.options)
  throw_if (not offered) bad_request
  modify (λ s. record s { votes = upsert_vote id option user s.votes })

abbrev pub close : ℕ → Task → Task
close now t = record t { closed_at = some now; status = task_done }

unfoldable pub close_voting :
    (String → String) → ℕ → ℕ → Option ℕ → ℕ → ℕ → ℕ → Action Store (Unit {0})
unfolding capture_task_completion
close_voting trim id org actor now new_capture new_log = do
  found ← gets (λ s. find_first (is_decision_of id org) s.tasks)
  task ← or_throw found not_found
  throw_if (is_some task.closed_at) bad_request
  throw_if (same_status task.status task_cancelled) bad_request
  modify (λ s. record s {
    tasks = update_where (has_key task_id id) (close now) s.tasks;
    notices = s.notices ++ decision_closed id ∷ [];
  })
  modify (capture_task_completion trim (completion task org actor) now new_capture new_log)
