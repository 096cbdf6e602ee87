-- ===== src/Worker/Timeout.antt =====
-- The timeout of a task's execution, in seconds (axontask-worker/src/timeout.rs).
use axon_task.Prelude.{
  ℕ, ◌≡◌, refl, ℤ, pos, pos_part, leb_ℤ, ltb, Option, none, some, max, min, if◌then◌else◌, arith,
}

abbrev pub default_timeout : ℕ
default_timeout = 3600

abbrev pub grace_period : ℕ
grace_period = 30

abbrev pub min_timeout : ℕ
min_timeout = 1

abbrev pub max_timeout : ℕ
max_timeout = 86400

pub record TimeoutEnforcer : Type 0 where
  pub timeout : ℕ
  pub grace : ℕ

abbrev pub new : ℕ → TimeoutEnforcer
new t = record { timeout = t; grace = grace_period }

abbrev pub with_grace_period : ℕ → ℕ → TimeoutEnforcer
with_grace_period t g = record { timeout = t; grace = g }

abbrev clamp : ℕ → ℕ
clamp duration =
    if ltb duration min_timeout
    then min_timeout
    else if ltb max_timeout duration
    then max_timeout
    else duration

abbrev in_seconds : Option ℤ → ℕ
in_seconds none = default_timeout
in_seconds (some secs) = if leb_ℤ secs (pos 0) then min_timeout else clamp (pos_part secs)

unfoldable pub from_task_timeout : Option ℤ → TimeoutEnforcer
from_task_timeout secs = new (in_seconds secs)

-- A task's execution is given its own timeout if that is at least a second and at most a day, the nearest of
-- the two if it is not, and an hour if the task has none.
from_task_timeout_lem :
    (secs : ℤ)
    → ((from_task_timeout (some secs)).timeout ≡ max 1 (min 86400 (pos_part secs)))
      × ((from_task_timeout none).timeout ≡ 3600)
unfolding from_task_timeout
from_task_timeout_lem secs = (ground arith, refl)
