-- ===== src/TimeEntries/Edits.antt =====
-- Entries made by hand, and changes to entries and their logs.
use pexlo_portal.Prelude.{
  ℕ, Bool, true, false, not, Option, none, some, [], ◌∷◌, ◌++◌, ◌==◌, ◌&&◌, if◌then◌else◌,
  find_first, delete_where, leb, is_some, or_else, same_option, has_key,
}
use Prim.Native.String.{String}
use text.Mathlib.Text.{◌==◌ as str_eq}
use pexlo_portal.Service.{
  Action, pure, gets, throw_if, or_throw, modify, not_found, forbidden, conflict, bad_request,
  ◌>>=◌, ◌>>◌,
}
use pexlo_portal.Ledger.{
  TimeEntry, TimeEntryLog, by_user, Task, Store, entry_id, update_entry, insert_entry,
  seconds_between, project_of, resolve_rate,
}
use pexlo_portal.TimeEntries.Timer.{check_task}

pub record CreateManualEntry : Type 0 where
  pub project_id : ℕ
  pub task_id : Option ℕ
  pub description : Option String
  pub started_at : ℕ
  pub ended_at : ℕ
  pub billable : Option Bool

abbrev pub manual_entry : ℕ → ℕ → CreateManualEntry → Option ℕ → ℕ → TimeEntry
manual_entry user org dto rate new_id = record {
  id = new_id;
  organization_id = org;
  project_id = dto.project_id;
  task_id = dto.task_id;
  user_id = user;
  description = dto.description;
  started_at = dto.started_at;
  ended_at = some dto.ended_at;
  duration_sec = some (seconds_between dto.started_at dto.ended_at);
  billable = or_else dto.billable true;
  hourly_rate_cents = rate;
  invoice_line_item_id = none;
}

unfoldable pub create : ℕ → ℕ → CreateManualEntry → ℕ → Action Store (Unit {0})
unfolding check_task
create user org dto new_id = do
  throw_if (leb dto.ended_at dto.started_at) bad_request
  project ← gets (project_of dto.project_id org)
  or_throw project not_found
  check_task dto.task_id dto.project_id org
  rate ← gets (resolve_rate org user dto.project_id)
  insert_entry (manual_entry user org dto rate new_id)

-- `where: { id, organizationId: orgId }`
abbrev pub owned : ℕ → ℕ → TimeEntry → Bool
owned id org e = e.id == id && e.organization_id == org

-- `findOwnEntryOrThrow`
unfoldable pub find_own_entry : ℕ → ℕ → ℕ → Action Store TimeEntry
find_own_entry id user org = do
  found ← gets (λ s. find_first (owned id org) s.entries)
  entry ← or_throw found not_found
  throw_if (not (entry.user_id == user)) forbidden
  throw_if (is_some entry.invoice_line_item_id) conflict
  pure entry

-- An outer `none` is a property that the request does not have.
pub record UpdateTimeEntry : Type 0 where
  pub description : Option (Option String)
  pub started_at : Option ℕ
  pub ended_at : Option ℕ
  pub billable : Option Bool
  pub task_id : Option (Option ℕ)

abbrev pub next_end : UpdateTimeEntry → TimeEntry → Option ℕ
next_end dto entry = elim dto.ended_at [ none ↦ entry.ended_at | some t ↦ some t ]

abbrev pub next_duration : ℕ → Option ℕ → TimeEntry → Option ℕ
next_duration start none entry = entry.duration_sec
next_duration start (some t) entry = some (seconds_between start t)

abbrev pub ends_early : ℕ → Option ℕ → Bool
ends_early start none = false
ends_early start (some t) = leb t start

abbrev pub edited : TimeEntry → UpdateTimeEntry → TimeEntry → TimeEntry
edited entry dto e = record e {
  description = or_else dto.description entry.description;
  started_at = or_else dto.started_at entry.started_at;
  ended_at = next_end dto entry;
  duration_sec = next_duration (or_else dto.started_at entry.started_at) (next_end dto entry) entry;
  billable = or_else dto.billable entry.billable;
  task_id = or_else dto.task_id entry.task_id;
}

unfoldable pub update : ℕ → ℕ → ℕ → UpdateTimeEntry → Action Store (Unit {0})
update id user org dto = do
  entry ← find_own_entry id user org
  throw_if (ends_early (or_else dto.started_at entry.started_at) (next_end dto entry)) bad_request
  let next_task = or_else dto.task_id entry.task_id
  check_task (if same_option next_task entry.task_id then none else next_task) entry.project_id org
  modify (update_entry id (edited entry dto))

-- The logs of an entry are deleted with it.
abbrev pub drop_entry : ℕ → Store → Store
drop_entry id s = record s {
  entries = delete_where (has_key entry_id id) s.entries;
  logs = delete_where (λ (l : TimeEntryLog). l.time_entry_id == id) s.logs;
}

unfoldable pub delete : ℕ → ℕ → ℕ → Action Store (Unit {0})
delete id user org = do find_own_entry id user org; modify (drop_entry id)

pub record CreateTimeEntryLog : Type 0 where
  pub kind : String
  pub text : String
  pub task_id : Option ℕ

-- `assertTaskInProject`
unfoldable pub assert_task_in_project : Option ℕ → ℕ → ℕ → Action Store (Unit {0})
assert_task_in_project none project org = pure tt
assert_task_in_project (some id) project org = do
  task ← gets (λ s.
      find_first (λ (t : Task). t.id == id && t.project_id == project && t.organization_id == org)
        s.tasks)
  or_throw task not_found
  pure tt

-- `trim` is `String.prototype.trim`.
unfoldable pub add_log :
    (String → String) → ℕ → ℕ → ℕ → CreateTimeEntryLog → ℕ → Action Store (Unit {0})
unfolding assert_task_in_project
add_log trim id user org dto new_id = do
  found ← gets (λ s. find_first (owned id org) s.entries)
  entry ← or_throw found not_found
  throw_if (is_some entry.invoice_line_item_id) conflict
  throw_if (str_eq (trim dto.text) "") bad_request
  assert_task_in_project dto.task_id entry.project_id org
  modify (λ s. record s {
    logs =
        s.logs
        ++ record {
          id = new_id;
          time_entry_id = entry.id;
          organization_id = org;
          user_id = user;
          kind = dto.kind;
          text = trim dto.text;
          task_id = dto.task_id;
          actor_type = by_user;
        }
          ∷ [];
  })

-- The entry of a log is there by the foreign key.
unfoldable pub delete_log : ℕ → ℕ → Action Store (Unit {0})
delete_log id org = do
  found ←
      gets (λ s. find_first (λ (l : TimeEntryLog). l.id == id && l.organization_id == org) s.logs)
  entry_log ← or_throw found not_found
  entries ← gets (λ s. s.entries)
  entry ← or_throw (find_first (has_key entry_id entry_log.time_entry_id) entries) not_found
  throw_if (is_some entry.invoice_line_item_id) conflict
  modify (λ s. record s { logs = delete_where (λ (l : TimeEntryLog). l.id == id) s.logs })
