-- ===== src/Task.antt =====
-- The task row and its states (axontask-shared/src/models/task.rs). A `Uuid` is only compared and
-- printed, so it is a number; a time is a number of microseconds; `args` is a JSON value of any
-- type `J`.
pub mod Lifecycle
pub mod Queries
pub use axon_task.Db.{DateTime}
use axon_task.Prelude.{ℕ, ℤ, pos, Text, text, Bool, true, false, Option, none, some, ◌==◌}

abbrev pub Uuid : Type 0
Uuid = ℕ

pub data TaskState : Type 0 where
  pending running succeeded failed canceled timeout : TaskState

unfoldable pub as_str : TaskState → Text
unfolding text
as_str pending = text "pending"
as_str running = text "running"
as_str succeeded = text "succeeded"
as_str failed = text "failed"
as_str canceled = text "canceled"
as_str timeout = text "timeout"

unfoldable pub is_terminal : TaskState → Bool
is_terminal succeeded = true
is_terminal failed = true
is_terminal canceled = true
is_terminal timeout = true
is_terminal _ = false

unfoldable pub is_active : TaskState → Bool
is_active pending = true
is_active running = true
is_active _ = false

unfoldable pub can_transition_to : TaskState → TaskState → Bool
can_transition_to pending running = true
can_transition_to pending canceled = true
can_transition_to running succeeded = true
can_transition_to running failed = true
can_transition_to running timeout = true
can_transition_to running canceled = true
can_transition_to _ _ = false

-- Equality of states, which the `WHERE` clauses test.
abbrev tag : TaskState → ℕ
tag pending = 0
tag running = 1
tag succeeded = 2
tag failed = 3
tag canceled = 4
tag timeout = 5

abbrev pub same_state : TaskState → TaskState → Bool
same_state a b = tag a == tag b

pub record Task (J : Type 0) : Type 0 where
  pub id : Uuid
  pub tenant_id : Uuid
  pub created_by : Option Uuid
  pub name : Text
  pub adapter : Text
  pub args : J
  pub state : TaskState
  pub started_at : Option DateTime
  pub ended_at : Option DateTime
  pub cursor : ℤ  -- i64
  pub bytes_streamed : ℤ  -- i64
  pub minutes_used : ℤ  -- i32
  pub timeout_seconds : ℤ  -- i32
  pub error_message : Option Text
  pub exit_code : Option ℤ
  pub created_at : DateTime
  pub updated_at : DateTime

pub record CreateTask (J : Type 0) : Type 0 where
  pub tenant_id : Uuid
  pub created_by : Option Uuid
  pub name : Text
  pub adapter : Text
  pub args : J
  pub timeout_seconds : ℤ

abbrev pub default_timeout : ℤ
default_timeout = pos 3600

pub record UpdateTask : Type 0 where
  pub cursor : Option ℤ
  pub bytes_streamed : Option ℤ
  pub minutes_used : Option ℤ
  pub error_message : Option Text
  pub exit_code : Option ℤ
