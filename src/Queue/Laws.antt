-- ===== src/Queue/Laws.antt =====
-- What the queue's operations do, branch by branch (axontask-worker/src/queue.rs).
use axon_task.Prelude.{
  Result, ◌≡◌, ◌≢◌, refl, inl, inr, ℤ, Text, text, Bool, false, Option, none, some, [], ◌∷◌, All,
  ok, err, ◌==◌, Bool-cases, if◌then◌else◌, arith,
}
use axon_task.Task.{Uuid, DateTime, Task, running, same_state}
use axon_task.Task.Queries.{in_state}
use axon_task.Queue.{
  QueueError, task_not_found, mark, mark_succeeded, mark_failed, mark_timeout, set_succeeded,
  set_failed, set_timeout,
}
use axon_task.Store.{Table}
use axon_task.Db.{Store}
use axon_task.Store.Rows.{update_rows, rows_affected}
use axon_task.Store.Evolution.{Distinct}

module _ {J : Type 0} where
  -- The row of an id, as `find_by_id` reads it.
  abbrev pub row_of : Uuid → Table J → Option (Task J)
  row_of id [] = none
  row_of id (t ∷ ts) = if t.id == id then some t else row_of id ts

  abbrev pub runs : Option (Task J) → Bool
  runs none = false
  runs (some t) = same_state t.state running

  no_row : (id : Uuid) (ts : Table J) → All (λ u. u.id ≢ id) ts → row_of id ts ≡ none
  no_row id [] h = refl
  no_row id (t ∷ ts) h = ground (arith, h.0, no_row id ts h.1)

  module _ (f : Task J → Task J) (same_id : (t : Task J) → (f t).id ≡ t.id) (id : Uuid) where
    none_affected :
        (ts : Table J)
        → All (λ u. u.id ≢ id) ts
        → (rows_affected (in_state id running) ts ≡ 0)
          × (update_rows (in_state id running) f ts ≡ ts)
    none_affected [] h = (refl, refl)
    none_affected (t ∷ ts) h =
        let rest = none_affected ts h.1 in (ground (arith, h.0), ground (arith, h.0))

    -- An update of the running row of an id, by the row that the id has.
    update_running :
        (ts : Table J)
        → Distinct ts
        → (t : Task J) → row_of id ts ≡ some t
        → t.state ≡ running
        → (rows_affected (in_state id running) ts ≡ 1)
          × (row_of id (update_rows (in_state id running) f ts) ≡ some (f t))
    update_running [] d t h r = cc
    update_running (x ∷ ts) d t h r = elim (Bool-cases (x.id == id)) [
      | inl e ↦
          let q : x.id ≡ id = ground arith in
          let running_x : x.state ≡ running = ground arith in
          let rest = none_affected ts (rw (← q) d.0) in
          (ground (arith, rest.0), ground (arith, same_id x))
      | inr e ↦
          let rest = update_running ts d.1 t (ground arith) r in
          (ground (arith, rest.0), ground (arith, rest.1))
    ]

    update_others :
        (j : Uuid) (ts : Table J)
        → j ≢ id
        → row_of j (update_rows (in_state id running) f ts) ≡ row_of j ts
    update_others j [] ne = refl
    update_others j (t ∷ ts) ne = ground (arith, same_id t, update_others j ts ne)

    not_running :
        (ts : Table J)
        → Distinct ts
        → runs (row_of id ts) ≡ false
        → (rows_affected (in_state id running) ts ≡ 0)
          × (update_rows (in_state id running) f ts ≡ ts)
    not_running [] d h = (refl, refl)
    not_running (t ∷ ts) d h = elim (Bool-cases (t.id == id)) [
      | inl e ↦
          let q : t.id ≡ id = ground arith in
          let rest = none_affected ts (rw (← q) d.0) in
          let idle : same_state t.state running ≡ false = ground arith in
          (ground (arith, rest.0), ground (arith, rest.1))
      | inr e ↦
          let rest = not_running ts d.1 (ground arith) in
          (ground (arith, rest.0), ground (arith, rest.1))
    ]

  -- What a `mark_…` promises of its result, for the statement that sets `f`.
  abbrev pub Marked :
      (DateTime → Task J → Task J)
      → Uuid
      → Store (Task J)
      → Result QueueError (Unit {0}) × Store (Task J)
      → Type 0
  Marked f id s (r, s') =
      ((t : Task J)
        → row_of id s.rows ≡ some t
        → t.state ≡ running
        → (r ≡ ok tt)
          × (row_of id s'.rows ≡ some (f s.now t))
          × ((j : Uuid) → j ≢ id → row_of j s'.rows ≡ row_of j s.rows))
      × (runs (row_of id s.rows) ≡ false
          → ◌≡◌ {A = Result QueueError (Unit {0}) × Store (Task J)} (r, s')
              (err (task_not_found id), s))

  -- What a `mark_…` does when the database answers: `f` is what the statement sets.
  module _ (f : DateTime → Task J → Task J)
      (same_id : (now : DateTime) (t : Task J) → (f now t).id ≡ t.id) (id : Uuid)
      (s : Store (Task J)) (up : s.faults ≡ []) (d : Distinct s.rows) where
    marked_running :
        (t : Task J)
        → row_of id s.rows ≡ some t
        → t.state ≡ running
        → let (r, s') = mark f id s in
          (r ≡ ok tt)
          × (row_of id s'.rows ≡ some (f s.now t))
          × ((j : Uuid) → j ≢ id → row_of j s'.rows ≡ row_of j s.rows)
    marked_running t h r =
        let (one, moved) = update_running (f s.now) (same_id s.now) id s.rows d t h r in
        rw up (rw one (refl, moved, λ j ne. update_others (f s.now) (same_id s.now) id j s.rows ne))

    mark_lem : Marked f id s (mark f id s)
    mark_lem = (
      marked_running,
      λ h.
          let (none_hit, same) = not_running (f s.now) (same_id s.now) id s.rows d h in
          ground (arith, none_hit, same),
    )

  -- With the database up and no id twice in the table, each of `mark_succeeded`, `mark_failed` and
  -- `mark_timeout` does one of two things. If the task's row is running, it returns `Ok`, the row has
  -- exactly the columns of that statement set, and the row of every other id is as it was. If the task is
  -- not there or not running, it returns `TaskNotFound` and the store is as it was.
  pub marks_lem :
      (id : Uuid) (code : Option ℤ) (error : Text) (s : Store (Task J))
      → s.faults ≡ []
      → Distinct s.rows
      → Marked (set_succeeded code) id s (mark_succeeded id code s)
        × Marked (set_failed error) id s (mark_failed id error s)
        × Marked (set_timeout (text "Task timed out")) id s (mark_timeout id s)
  unfolding mark_succeeded mark_failed mark_timeout
  marks_lem id code error s up d = (
    mark_lem (set_succeeded code) (λ now t. refl) id s up d,
    mark_lem (set_failed error) (λ now t. refl) id s up d,
    mark_lem (set_timeout (text "Task timed out")) (λ now t. refl) id s up d,
  )
