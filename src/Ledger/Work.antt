-- ===== src/Ledger/Work.antt =====
-- Projects, tasks and the time that is spent on them: packages/database/prisma/schema.prisma.
use Prim.Native.Nat.{ℕ}
use mathlib.Core.Bool.{Bool}
use mathlib.Core.Option.{Option}
use Prim.Native.String.{String}

pub record Project : Type 0 where
  pub id : ℕ
  pub organization_id : ℕ
  pub name : String
  pub hourly_rate_cents : Option ℕ
  pub billing_client_id : Option ℕ

pub record BillingClient : Type 0 where
  pub id : ℕ
  pub organization_id : ℕ
  pub name : String
  pub default_hourly_rate_cents : Option ℕ
  pub archived_at : Option ℕ

pub data MemberRole : Type 0 where
  owner admin member : MemberRole

pub record Member : Type 0 where
  pub organization_id : ℕ
  pub user_id : ℕ
  pub role : MemberRole
  pub hourly_rate_cents : Option ℕ

pub data TaskStatus : Type 0 where
  task_open in_progress task_done task_cancelled : TaskStatus

pub data TaskType : Type 0 where
  checkbox decision : TaskType

pub record Task : Type 0 where
  pub id : ℕ
  pub title : String
  pub description : Option String
  pub due_date : Option ℕ
  pub status : TaskStatus
  pub requested_by_id : Option ℕ
  pub assignee_id : Option ℕ
  pub order : ℕ
  pub type : TaskType
  pub question : Option String
  pub closed_at : Option ℕ
  pub project_id : ℕ
  pub organization_id : ℕ

pub record DecisionOption : Type 0 where
  pub id : ℕ
  pub task_id : ℕ
  pub label : String
  pub order : ℕ

pub record DecisionVote : Type 0 where
  pub option_id : ℕ
  pub task_id : ℕ
  pub user_id : ℕ

pub record TimeEntry : Type 0 where
  pub id : ℕ
  pub organization_id : ℕ
  pub project_id : ℕ
  pub task_id : Option ℕ
  pub user_id : ℕ
  pub description : Option String
  pub started_at : ℕ
  pub ended_at : Option ℕ
  pub duration_sec : Option ℕ
  pub billable : Bool
  pub hourly_rate_cents : Option ℕ
  pub invoice_line_item_id : Option ℕ

pub data ActorType : Type 0 where
  by_user by_agent : ActorType

pub record TimeEntryLog : Type 0 where
  pub id : ℕ
  pub time_entry_id : ℕ
  pub organization_id : ℕ
  pub user_id : ℕ
  pub kind : String
  pub text : String
  pub task_id : Option ℕ
  pub actor_type : ActorType

pub record PendingTimeCapture : Type 0 where
  pub id : ℕ
  pub organization_id : ℕ
  pub project_id : ℕ
  pub task_id : Option ℕ
  pub label : String
  pub completed_by_type : ActorType
  pub completed_by_name : Option String
  pub completed_at : ℕ
  pub resolved_at : Option ℕ
  pub resolved_time_entry_id : Option ℕ
