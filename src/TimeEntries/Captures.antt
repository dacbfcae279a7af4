-- ===== src/TimeEntries/Captures.antt =====
-- Completed tasks that wait for their time: `captureTaskCompletion` and `resolvePendingCapture`.
pub mod Resolving
use pexlo_portal.Prelude.{
  ℕ, ◌-◌, ◌*◌, Bool, true, false, not, Option, none, some, List, [], ◌∷◌, ◌++◌, ◌==◌, ◌&&◌,
  if◌then◌else◌, find_first, find_many, update_where, count, any, is_none, is_some, or_else,
  same_option, ltb, has_key,
}
use Prim.Native.String
use Prim.Native.String.{String}
use text.Mathlib.Text.{◌==◌ as str_eq}
use pexlo_portal.Service.{
  Action, pure, gets, throw_if, or_throw, modify, transaction, not_found, conflict, bad_request,
  ◌>>=◌, ◌>>◌,
}
use pexlo_portal.Ledger.{
  TimeEntry, TimeEntryLog, ActorType, by_user, by_agent, Task, PendingTimeCapture, Store,
  insert_entry, resolve_rate,
}

pub record CaptureTaskCompletion : Type 0 where
  pub organization_id : ℕ
  pub project_id : ℕ
  pub task_id : ℕ
  pub actor_type : ActorType
  pub actor_name : Option String
  pub task_title : String

-- An open capture of the task in the project.
abbrev pub is_open : CaptureTaskCompletion → PendingTimeCapture → Bool
is_open input c =
    c.organization_id == input.organization_id
    && c.project_id == input.project_id
    && same_option c.task_id (some input.task_id)
    && is_none c.resolved_at

-- `orderBy: { startedAt: "desc" }`: the running timer of the project that was started last.
abbrev pub last_started : List TimeEntry → Option TimeEntry
last_started [] = none
last_started (e ∷ es) =
    let rest = last_started es in
    elim rest [ none ↦ some e | some f ↦ some (if ltb e.started_at f.started_at then f else e) ]

abbrev pub runs_in : ℕ → ℕ → TimeEntry → Bool
runs_in org project e = e.organization_id == org && e.project_id == project && is_none e.ended_at

abbrev pub completed : String → String
completed title = String.◌++◌ "Completed: " title

abbrev pub note_done : CaptureTaskCompletion → Option TimeEntry → ℕ → Store → Store
note_done input none new_log s = s
note_done input (some e) new_log s = record s {
  logs =
      s.logs
      ++ record {
        id = new_log;
        time_entry_id = e.id;
        organization_id = input.organization_id;
        user_id = e.user_id;
        kind = "task_done";
        text = completed input.task_title;
        task_id = some input.task_id;
        actor_type = input.actor_type;
      }
        ∷ [];
}

-- `input.actorName?.trim() || null`
abbrev pub trimmed : (String → String) → Option String → Option String
trimmed trim none = none
trimmed trim (some name) = if str_eq (trim name) "" then none else some (trim name)

abbrev pub actor : ActorType → String
actor by_user = "User"
actor by_agent = "Agent"

abbrev pub pending_capture : (String → String) → CaptureTaskCompletion → ℕ → ℕ → PendingTimeCapture
pending_capture trim input now new_id = record {
  id = new_id;
  organization_id = input.organization_id;
  project_id = input.project_id;
  task_id = some input.task_id;
  label =
      String.◌++◌ (or_else (trimmed trim input.actor_name) (actor input.actor_type))
        (String.◌++◌ " completed “" (String.◌++◌ input.task_title "”"));
  completed_by_type = input.actor_type;
  completed_by_name = trimmed trim input.actor_name;
  completed_at = now;
  resolved_at = none;
  resolved_time_entry_id = none;
}

-- Every failure is caught and logged; there is none here but the database's own.
unfoldable pub capture_task_completion :
    (String → String) → CaptureTaskCompletion → ℕ → ℕ → ℕ → Store → Store
capture_task_completion trim input now new_id new_log s =
    let running =
      last_started (find_many (runs_in input.organization_id input.project_id) s.entries) in
    let noted = note_done input running new_log s in
    if any (is_open input) s.captures
    then s
    else record noted { captures = noted.captures ++ pending_capture trim input now new_id ∷ [] }

pub record ResolvePendingTimeCapture : Type 0 where
  pub duration_sec : ℕ
  pub billable : Option Bool

-- `where: { id, organizationId: orgId, resolvedAt: null }`
abbrev pub is_pending : ℕ → ℕ → PendingTimeCapture → Bool
is_pending id org c = c.id == id && c.organization_id == org && is_none c.resolved_at

abbrev pub claim : ℕ → PendingTimeCapture → PendingTimeCapture
claim now c = record c { resolved_at = some now }

-- A completion before 1970 is not considered: the subtraction stops at 0.
abbrev pub captured_entry :
    ℕ → ℕ → ResolvePendingTimeCapture → PendingTimeCapture → Option ℕ → ℕ → TimeEntry
captured_entry user org dto c rate new_id = record {
  id = new_id;
  organization_id = org;
  project_id = c.project_id;
  task_id = c.task_id;
  user_id = user;
  description = some c.label;
  started_at = c.completed_at - dto.duration_sec * 1000;
  ended_at = some c.completed_at;
  duration_sec = some dto.duration_sec;
  billable = or_else dto.billable true;
  hourly_rate_cents = rate;
  invoice_line_item_id = none;
}

abbrev pub title_of : Option ℕ → Store → Option String
title_of none s = none
title_of (some id) s = elim (find_first (λ (t : Task). t.id == id) s.tasks) [
  | none ↦ none
  | some t ↦ some t.title
]

abbrev pub captured_log : ℕ → ℕ → PendingTimeCapture → Option String → ℕ → ℕ → TimeEntryLog
captured_log user org c title entry new_log = record {
  id = new_log;
  time_entry_id = entry;
  organization_id = org;
  user_id = user;
  kind = "task_done";
  text = elim title [ none ↦ c.label | some t ↦ completed t ];
  task_id = c.task_id;
  actor_type = c.completed_by_type;
}

abbrev pub capture_id : PendingTimeCapture → ℕ
capture_id c = c.id

abbrev pub set_entry : ℕ → PendingTimeCapture → PendingTimeCapture
set_entry entry c = record c { resolved_time_entry_id = some entry }

unfoldable pub resolve_transaction :
    ℕ → ℕ → ℕ → ResolvePendingTimeCapture → Option ℕ → ℕ → ℕ → ℕ → Action Store TimeEntry
resolve_transaction id user org dto rate now new_id new_log =
    transaction (λ start end. start)
      (do
        found ← gets (λ s. find_first (is_pending id org) s.captures)
        capture ← or_throw found not_found
        title ← gets (title_of capture.task_id)
        claimed ← gets (λ s. count (is_pending id org) s.captures)
        modify
            (λ s. record s { captures = update_where (is_pending id org) (claim now) s.captures })
        throw_if (not (claimed == 1)) conflict
        let entry = captured_entry user org dto capture rate new_id
        insert_entry entry
        modify (λ s. record s {
          logs = s.logs ++ captured_log user org capture title new_id new_log ∷ [];
          captures = update_where (has_key capture_id id) (set_entry new_id) s.captures;
        })
        pure entry)

unfoldable pub resolve_pending_capture :
    ℕ → ℕ → ℕ → ResolvePendingTimeCapture → ℕ → ℕ → ℕ → Action Store TimeEntry
resolve_pending_capture id user org dto now new_id new_log = do
  throw_if (dto.duration_sec == 0) bad_request
  found ← gets (λ s. find_first (is_pending id org) s.captures)
  capture ← or_throw found not_found
  rate ← gets (resolve_rate org user capture.project_id)
  resolve_transaction id user org dto rate now new_id new_log
