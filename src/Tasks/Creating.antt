-- ===== src/Tasks/Creating.antt =====
-- `create` and `createForClient`.
use pexlo_portal.Prelude.{
  ℕ, suc, max, Bool, true, false, not, Option, none, some, List, [], ◌∷◌, ◌++◌, ◌==◌, ◌&&◌,
  if◌then◌else◌, find_many, any, length, ltb,
}
use Prim.Native.String.{String}
use text.Mathlib.Text.{◌==◌ as str_eq}
use pexlo_portal.Service.{
  Action, pure, gets, throw_if, or_throw, modify, not_found, forbidden, bad_request, ◌>>=◌, ◌>>◌,
}
use pexlo_portal.Ledger.{
  Project, ProjectClient, Task, TaskType, checkbox, decision, task_open, DecisionOption, Store,
  task_created, client_request_created, project_of,
}

-- Each option of a request stands with the identifier that the database gives it.
abbrev pub Options : Type 0
Options = List (ℕ × String)

pub record CreateTask : Type 0 where
  pub title : String
  pub description : Option String
  pub due_date : Option ℕ
  pub type : Option TaskType
  pub question : Option String
  pub options : Option Options

pub record CreateClientTask : Type 0 where
  pub title : String
  pub description : Option String
  pub due_date : Option ℕ

abbrev pub in_project : ℕ → ℕ → Task → Bool
in_project project org t = t.project_id == project && t.organization_id == org

-- `(_max.order ?? -1) + 1`
abbrev pub next_order : List Task → ℕ
next_order [] = 0
next_order (t ∷ ts) = let rest = next_order ts in max (suc t.order) rest

abbrev pub is_decision : Option TaskType → Bool
is_decision (some decision) = true
is_decision _ = false

-- A decision needs a question, which is not empty, and two options.
abbrev pub lacks_question : Option String → Bool
lacks_question none = true
lacks_question (some q) = str_eq q ""

abbrev pub lacks_options : Option Options → Bool
lacks_options none = true
lacks_options (some os) = ltb (length os) 2

abbrev pub new_options : ℕ → ℕ → Options → List DecisionOption
new_options task n [] = []
new_options task n ((id, label) ∷ os) =
    record { id = id; task_id = task; label = label; order = n } ∷ new_options task (suc n) os

abbrev pub options_of : ℕ → CreateTask → List DecisionOption
options_of task dto = elim dto.options [
  | none ↦ []
  | some os ↦ if is_decision dto.type then new_options task 0 os else []
]

abbrev pub new_task : CreateTask → ℕ → ℕ → Option ℕ → ℕ → ℕ → Task
new_task dto project org requested_by order new_id = record {
  id = new_id;
  title = dto.title;
  description = dto.description;
  due_date = dto.due_date;
  status = task_open;
  requested_by_id = requested_by;
  assignee_id = none;
  order = order;
  type = if is_decision dto.type then decision else checkbox;
  question = if is_decision dto.type then dto.question else none;
  closed_at = none;
  project_id = project;
  organization_id = org;
}

unfoldable pub create : CreateTask → ℕ → ℕ → Option ℕ → ℕ → Action Store Task
create dto project org requested_by new_id = do
  found ← gets (project_of project org)
  or_throw found not_found
  order ← gets (λ s. next_order (find_many (in_project project org) s.tasks))
  throw_if (is_decision dto.type && lacks_question dto.question) bad_request
  throw_if (is_decision dto.type && lacks_options dto.options) bad_request
  let task = new_task dto project org requested_by order new_id
  modify (λ s. record s {
    tasks = s.tasks ++ task ∷ [];
    options = s.options ++ options_of new_id dto;
    notices = s.notices ++ task_created project ∷ [];
  })
  pure task

-- `where: { projectId, userId, project: { organizationId: orgId } }`
abbrev pub is_client : ℕ → ℕ → ℕ → Store → Bool
is_client project user org s =
    any (λ (c : ProjectClient). c.project_id == project && c.user_id == user) s.clients
    && any (λ (p : Project). p.id == project && p.organization_id == org) s.projects

abbrev pub client_task : CreateClientTask → ℕ → ℕ → ℕ → ℕ → ℕ → Task
client_task dto project user org order new_id = record {
  id = new_id;
  title = dto.title;
  description = dto.description;
  due_date = dto.due_date;
  status = task_open;
  requested_by_id = some user;
  assignee_id = none;
  order = order;
  type = checkbox;
  question = none;
  closed_at = none;
  project_id = project;
  organization_id = org;
}

unfoldable pub create_for_client : CreateClientTask → ℕ → ℕ → ℕ → ℕ → Action Store Task
create_for_client dto project user org new_id = do
  assigned ← gets (is_client project user org)
  throw_if (not assigned) forbidden
  order ← gets (λ s. next_order (find_many (in_project project org) s.tasks))
  let task = client_task dto project user org order new_id
  modify (λ s. record s {
    tasks = s.tasks ++ task ∷ [];
    notices = s.notices ++ client_request_created project ∷ [];
  })
  pure task
