-- ===== src/Quota/Start.antt =====
-- `start_task` (axontask-api/src/routes/mcp/start_task.rs). What the derived `validate` answers, how a
-- `Uuid` is printed, and the id that the database makes up are arguments.
use axon_task.Prelude.{
  ℕ, ℤ, Text, text, Bool, Option, none, some, List, ◌++◌, Result, ok, if◌then◌else◌,
}
use axon_task.Task.{Uuid, DateTime, Task, CreateTask, default_timeout, as_str}
use axon_task.Task.Queries.{SqlError, create}
use axon_task.Db.{Store, Query, ◌>>=◌, ◌>>◌, pure, raise, map_err}
use axon_task.Quota.{
  QuotaType, concurrent_tasks, daily_tasks, QuotaError, limit_exceeded, database_error,
  tenant_not_found, enforce,
}

pub data ApiError : Type 0 where
  validation_error : ApiError
  -- The kind, the use and the limit that the message names.
  forbidden : QuotaType → ℕ → ℕ → ApiError
  unauthorized internal_error : Text → ApiError

pub record StartTaskRequest (J : Type 0) : Type 0 where
  pub name : Text
  pub adapter : Text
  pub args : J
  pub timeout_s : Option ℤ
  pub tags : List Text

pub record StartTaskResponse : Type 0 where
  pub task_id : Uuid
  pub stream_url : Text
  pub status : Text
  pub created_at : DateTime
  pub timeout_s : Option ℤ

-- The fields of `AuthContext` that are read here.
pub record Requester : Type 0 where
  pub tenant_id : Uuid
  pub user_id : Option Uuid

abbrev pub quota_error : QuotaError → ApiError
quota_error (limit_exceeded kind limit current) = forbidden kind current limit
quota_error (tenant_not_found id) = unauthorized (text "Tenant not found")
quota_error (database_error e) = internal_error (text "Failed to check quotas")

abbrev pub create_error : SqlError → ApiError
create_error e = internal_error (text "Failed to create task")

abbrev seconds_or_default : Option ℤ → ℤ
seconds_or_default none = default_timeout
seconds_or_default (some s) = s

module _ {J : Type 0} (find_plan : Uuid → Result SqlError (Option Text))
    (print_id : Uuid → Text) where
  abbrev pub new_task : Requester → StartTaskRequest J → CreateTask J
  new_task auth request = record {
    tenant_id = auth.tenant_id;
    created_by = auth.user_id;
    name = request.name;
    adapter = request.adapter;
    args = request.args;
    timeout_seconds = seconds_or_default request.timeout_s;
  }

  abbrev pub response : Task J → StartTaskResponse
  response t = record {
    task_id = t.id;
    stream_url = text "/mcp/tasks/" ++ (print_id t.id ++ text "/stream");
    status = as_str t.state;
    created_at = t.created_at;
    timeout_s = some t.timeout_seconds;
  }

  abbrev pub insert :
      Uuid → Requester → StartTaskRequest J → Query (Task J) ApiError StartTaskResponse
  insert id auth request = do
    t ← map_err create_error (create id (new_task auth request))
    pure (response t)

  abbrev pub within : Requester → DateTime → QuotaType → Query (Task J) ApiError (Unit {0})
  within auth clock kind = map_err quota_error (enforce find_plan auth.tenant_id clock kind)

  -- What others do to the table between two statements.
  abbrev pub meanwhile : (Store (Task J) → Store (Task J)) → Query (Task J) ApiError (Unit {0})
  meanwhile others s = (ok tt, others s)

  -- The check of the first quota, that of the second, and the insertion are statements of their own.
  unfoldable pub start_task :
      Bool
      → Uuid
      → DateTime
      → (Store (Task J) → Store (Task J))
      → (Store (Task J) → Store (Task J))
      → Requester
      → StartTaskRequest J
      → Query (Task J) ApiError StartTaskResponse
  start_task valid id clock before_daily before_insert auth request =
      if valid
      then within auth clock concurrent_tasks
        >> (meanwhile before_daily
            >> (within auth clock daily_tasks
                >> (meanwhile before_insert >> insert id auth request)))
      else raise validation_error
