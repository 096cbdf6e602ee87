-- ===== src/Worker/AdapterEventKind.antt =====
-- The kinds of adapters' events (axontask-worker/src/adapters/adapter_trait.rs).
use axon_task.Prelude.{Text, text}

pub data AdapterEventKind : Type 0 where
  started progress stdout stderr completed failed cancelled timeout custom : AdapterEventKind

unfoldable pub to_string : AdapterEventKind → Text
unfolding text
to_string started = text "started"
to_string progress = text "progress"
to_string stdout = text "stdout"
to_string stderr = text "stderr"
to_string completed = text "completed"
to_string failed = text "failed"
to_string cancelled = text "cancelled"
to_string timeout = text "timeout"
to_string custom = text "custom"
