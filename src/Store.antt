-- ===== src/Store.antt =====
-- The `tasks` table of the database.
pub mod Rows
pub mod Evolution
pub mod Order
use axon_task.Prelude.{List}
use axon_task.Task.{Task}

abbrev pub Table : Type 0 → Type 0
Table J = List (Task J)
