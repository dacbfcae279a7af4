-- ===== src/TimeEntries/Timer.antt =====
-- `start` and `stop`: the timer of a user, of which one runs at most.
pub mod Starting
use pexlo_portal.Prelude.{
  ℕ, Bool, true, false, not, Option, none, some, ◌==◌, ◌&&◌, find_first, any,
}
use Prim.Native.String.{String}
use pexlo_portal.Service.{
  Action, Result, ok, err, pure, gets, throw_if, or_throw, modify, transaction, not_found, conflict,
  unique_violation, ◌>>=◌, ◌>>◌,
}
use pexlo_portal.Ledger.{
  Project, Task, TimeEntry, Store, is_running, update_entry, insert_entry, seconds_between,
  project_of, resolve_rate,
}

pub record StartTimer : Type 0 where
  pub project_id : ℕ
  pub task_id : Option ℕ
  pub description : Option String

-- `where: { id, projectId, project: { organizationId: orgId } }`
abbrev pub task_in : ℕ → ℕ → ℕ → Store → Option Task
task_in id project org s =
    find_first
      (λ (t : Task).
        t.id == id
        && t.project_id == project
        && any (λ (p : Project). p.id == t.project_id && p.organization_id == org) s.projects)
      s.tasks

-- A request may name no task.
unfoldable pub check_task : Option ℕ → ℕ → ℕ → Action Store (Unit {0})
check_task none project org = pure tt
check_task (some id) project org = do
  task ← gets (task_in id project org)
  or_throw task not_found
  pure tt

-- What stopping writes into the running entry.
abbrev pub close : TimeEntry → ℕ → TimeEntry → TimeEntry
close running now e = record e {
  ended_at = some now;
  duration_sec = some (seconds_between running.started_at now);
}

abbrev pub close_running : Option TimeEntry → ℕ → Store → Store
close_running none now s = s
close_running (some running) now s = update_entry running.id (close running now) s

abbrev pub new_timer : ℕ → ℕ → StartTimer → Option ℕ → ℕ → ℕ → TimeEntry
new_timer user org dto rate now new_id = record {
  id = new_id;
  organization_id = org;
  project_id = dto.project_id;
  task_id = dto.task_id;
  user_id = user;
  description = dto.description;
  started_at = now;
  ended_at = none;
  duration_sec = none;
  billable = true;
  hourly_rate_cents = rate;
  invoice_line_item_id = none;
}

-- The transaction closes a running entry and creates the new one; the database refuses the new
-- one if another has come to run, and then the transaction leaves nothing.
unfoldable pub start_transaction : ℕ → ℕ → StartTimer → Option ℕ → ℕ → ℕ → Action Store (Unit {0})
start_transaction user org dto rate now new_id =
    transaction (λ before after. before)
      (do
        running ← gets (λ s. find_first (is_running org user) s.entries)
        modify (close_running running now)
        insert_entry (new_timer user org dto rate now new_id))

-- `catch (err) { if (isP2002(err)) throw new ConflictException(...) }`
abbrev pub as_conflict : {A : Type 0} → Result A × Store → Result A × Store
as_conflict (err unique_violation, s) = (err conflict, s)
as_conflict r = r

unfoldable pub start : ℕ → ℕ → StartTimer → ℕ → ℕ → Action Store (Unit {0})
unfolding check_task
start user org dto now new_id = do
  project ← gets (project_of dto.project_id org)
  or_throw project not_found
  check_task dto.task_id dto.project_id org
  rate ← gets (resolve_rate org user dto.project_id)
  λ s. as_conflict (start_transaction user org dto rate now new_id s)

unfoldable pub stop : ℕ → ℕ → ℕ → Action Store (Unit {0})
stop user org now = do
  found ← gets (λ s. find_first (is_running org user) s.entries)
  running ← or_throw found not_found
  modify (update_entry running.id (close running now))
