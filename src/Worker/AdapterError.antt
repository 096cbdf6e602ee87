-- ===== src/Worker/AdapterError.antt =====
-- The errors of adapters (axontask-worker/src/adapters/adapter_trait.rs).
use axon_task.Prelude.{Text, text, ◌++◌}

pub data AdapterError : Type 0 where
  execution_failed : Text → AdapterError
  cancelled : AdapterError
  invalid_arguments : Text → AdapterError
  timeout : AdapterError
  resource_limit : Text → AdapterError
  event_emission_failed : Text → AdapterError
  internal : Text → AdapterError

-- `to_string`, by the `#[error]` attributes.
unfoldable pub to_string : AdapterError → Text
to_string (execution_failed m) = text "Task execution failed: " ++ m
to_string cancelled = text "Task was cancelled"
to_string (invalid_arguments m) = text "Invalid task arguments: " ++ m
to_string timeout = text "Task timeout exceeded"
to_string (resource_limit m) = text "Resource limit exceeded: " ++ m
to_string (event_emission_failed m) = text "Failed to emit event: " ++ m
to_string (internal m) = text "Internal error: " ++ m
