-- ===== src/Tasks/Changing.antt =====
-- `update`, `cancelClientTask`, `reorder` and `remove`.
use pexlo_portal.Prelude.{
  ℕ, suc, Bool, true, false, not, Option, none, some, List, [], ◌∷◌, ◌++◌, ◌==◌, ◌&&◌,
  if◌then◌else◌, find_first, update_where, delete_where, any, is_some, or_else, same_option,
  has_key,
}
use Prim.Native.String.{String}
use pexlo_portal.Service.{
  Action, gets, throw_if, or_throw, modify, not_found, forbidden, bad_request, ◌>>=◌, ◌>>◌,
}
use pexlo_portal.Ledger.{
  Member, MemberRole, owner, admin, member, Task, TaskStatus, task_open, in_progress, task_done,
  task_cancelled, TaskType, checkbox, decision, DecisionOption, DecisionVote, TimeEntry,
  TimeEntryLog, PendingTimeCapture, by_user, Store, task_status_changed, task_assigned,
}
use pexlo_portal.TimeEntries.Captures.{CaptureTaskCompletion, capture_task_completion}

abbrev pub task_id : Task → ℕ
task_id t = t.id

-- `where: { id, organizationId: orgId }`
abbrev pub owned : ℕ → ℕ → Task → Bool
owned id org t = t.id == id && t.organization_id == org

abbrev pub same_status : TaskStatus → TaskStatus → Bool
same_status task_open task_open = true
same_status in_progress in_progress = true
same_status task_done task_done = true
same_status task_cancelled task_cancelled = true
same_status _ _ = false

abbrev pub is_checkbox : TaskType → Bool
is_checkbox checkbox = true
is_checkbox decision = false

-- What a completion by a member of the team, if known, is captured with.
abbrev pub completion : Task → ℕ → Option ℕ → CaptureTaskCompletion
completion task org actor = record {
  organization_id = org;
  project_id = task.project_id;
  task_id = task.id;
  actor_type = by_user;
  actor_name = if is_some actor then some "User" else none;
  task_title = task.title;
}

-- The outer `none` is a property that the request does not have; `some none` is `null`.
pub record UpdateTask : Type 0 where
  pub title : Option String
  pub description : Option (Option String)
  pub due_date : Option (Option ℕ)
  pub status : Option TaskStatus
  pub assignee_id : Option (Option ℕ)

abbrev pub leads : MemberRole → Bool
leads owner = true
leads admin = true
leads member = false

abbrev pub may_assign : ℕ → Option (Option ℕ) → Store → Bool
may_assign org (some (some user)) s =
    any (λ (m : Member). m.user_id == user && m.organization_id == org && leads m.role) s.members
may_assign org _ s = true

abbrev pub edited : UpdateTask → Task → Task
edited dto t = record t {
  title = or_else dto.title t.title;
  description = or_else dto.description t.description;
  due_date = or_else dto.due_date t.due_date;
  status = or_else dto.status t.status;
  assignee_id = or_else dto.assignee_id t.assignee_id;
}

abbrev pub status_changes : UpdateTask → Task → Bool
status_changes dto t = elim dto.status [ none ↦ false | some new ↦ not (same_status new t.status) ]

abbrev pub completes : UpdateTask → Task → Bool
completes dto t = elim dto.status [
  | none ↦ false
  | some new ↦ same_status new task_done && not (same_status t.status task_done)
]

abbrev pub tell_assigned : UpdateTask → Task → Store → Store
tell_assigned dto t s = elim dto.assignee_id [
  | none ↦ s
  | some o ↦ elim o [
    | none ↦ s
    | some user ↦
        if same_option (some user) t.assignee_id
        then s
        else record s { notices = s.notices ++ task_assigned user ∷ [] }
  ]
]

-- An assignee is an owner or an administrator; a task that becomes done is captured.
unfoldable pub update :
    (String → String) → ℕ → UpdateTask → ℕ → Option ℕ → ℕ → ℕ → ℕ → Action Store (Unit {0})
unfolding capture_task_completion
update trim id dto org actor now new_capture new_log = do
  found ← gets (λ s. find_first (owned id org) s.tasks)
  task ← or_throw found not_found
  allowed ← gets (may_assign org dto.assignee_id)
  throw_if (not allowed) bad_request
  modify (λ s. record s { tasks = update_where (has_key task_id id) (edited dto) s.tasks })
  modify (λ s.
      if status_changes dto task
      then record s { notices = s.notices ++ task_status_changed id ∷ [] }
      else s)
  modify (λ s.
      if completes dto task
      then capture_task_completion trim (completion task org actor) now new_capture new_log s
      else s)
  modify (tell_assigned dto task)

abbrev pub cancel : Task → Task
cancel t = record t { status = task_cancelled }

unfoldable pub cancel_client_task : ℕ → ℕ → ℕ → Action Store (Unit {0})
cancel_client_task id user org = do
  found ← gets (λ s. find_first (owned id org) s.tasks)
  task ← or_throw found not_found
  throw_if (not (same_option task.requested_by_id (some user))) forbidden
  throw_if (not (is_checkbox task.type)) bad_request
  throw_if (not (same_status task.status task_open)) bad_request
  modify (λ s. record s {
    tasks = update_where (has_key task_id id) cancel s.tasks;
    notices = s.notices ++ task_status_changed id ∷ [];
  })

abbrev pub put_at : ℕ → Task → Task
put_at n t = record t { order = n }

-- The updates of `reorder`, from the index `n` on, in one transaction.
unfoldable pub reorder_from : ℕ → List ℕ → ℕ → List Task → List Task
reorder_from n [] org ts = ts
reorder_from n (id ∷ ids) org ts =
    reorder_from (suc n) ids org (update_where (owned id org) (put_at n) ts)

unfoldable pub reorder : List ℕ → ℕ → Store → Store
unfolding reorder_from
reorder ids org s = record s { tasks = reorder_from 0 ids org s.tasks }

abbrev pub of_task : ℕ → Option ℕ → Bool
of_task id o = same_option o (some id)

-- What the schema does with the rows that refer to a deleted task: options and votes are deleted,
-- entries, logs and captures lose the reference.
abbrev pub drop_task : ℕ → Store → Store
drop_task id s = record s {
  tasks = delete_where (has_key task_id id) s.tasks;
  options = delete_where (λ (o : DecisionOption). o.task_id == id) s.options;
  votes = delete_where (λ (v : DecisionVote). v.task_id == id) s.votes;
  entries =
      update_where (λ (e : TimeEntry). of_task id e.task_id) (λ e. record e { task_id = none })
        s.entries;
  logs =
      update_where (λ (l : TimeEntryLog). of_task id l.task_id) (λ l. record l { task_id = none })
        s.logs;
  captures =
      update_where (λ (c : PendingTimeCapture). of_task id c.task_id)
        (λ c. record c { task_id = none }) s.captures;
}

unfoldable pub remove : ℕ → ℕ → Action Store (Unit {0})
remove id org = do
  found ← gets (λ s. find_first (owned id org) s.tasks)
  or_throw found not_found
  modify (drop_task id)
