-- ===== src/Worker/Outcome.antt =====
-- How an execution ends (`execute_task` of axontask-worker/src/orchestrator.rs).
use axon_task.Prelude.{
  ◌≡◌, ◌≢◌, refl, sym, ◌∙◌, ap, inl, inr, pos, leb_ℤ, text, true, false, Option, none, some, [],
  ◌∷◌, ◌++◌, Result, ok, err, keep, head?, Bool-cases, ◌==◌, if◌then◌else◌, arith,
}
use mathlib.Core.Path.{subst}
use axon_task.Task.{Uuid, DateTime, Task, running}
use axon_task.Task.Queries.{find_by_id}
use axon_task.Queue.{QueueError, task_not_found, set_succeeded, set_failed, set_timeout}
use axon_task.Queue.Laws.{row_of, runs, Marked, marks_lem}
use axon_task.Store.{Table}
use axon_task.Store.Evolution.{Distinct}
use axon_task.Db.{Store, map_err}
use axon_task.Worker.AdapterError.{AdapterError, to_string}
use axon_task.Worker.Execute.{
  ExecuteError, queue, Attempt, elapsed_seconds, stop, looked_up, conclude, after_cancellation,
  execute_task,
}

module _ {J : Type 0} where
  head-row_of : (id : Uuid) (ts : Table J) → head? (keep (λ t. t.id == id) ts) ≡ row_of id ts
  head-row_of id [] = refl
  head-row_of id (t ∷ ts) = ground (arith, head-row_of id ts)

  -- What is to be written of a task whose adapter ended so, by when the task started.
  abbrev pub stopped_verdict : Task J → DateTime → Option DateTime → DateTime → Task J → Task J
  stopped_verdict t clock none = set_failed (text "Task cancelled")
  stopped_verdict t clock (some started) =
      if leb_ℤ t.timeout_seconds (elapsed_seconds clock started)
      then set_timeout (text "Task timed out")
      else set_failed (text "Task cancelled by user")

  abbrev pub verdict :
      Task J
      → Attempt J
      → Result AdapterError (Unit {0})
      → Option DateTime
      → DateTime
      → Task J
      → Task J
  verdict t a (err e) started = set_failed (to_string e)
  verdict t a (ok u) started =
      if a.cancelled then stopped_verdict t a.clock started else set_succeeded (some (pos 0))

  -- As `Marked`, of the result of the whole execution.
  abbrev pub Ended :
      (DateTime → Task J → Task J)
      → Uuid
      → Store (Task J)
      → Result ExecuteError (Unit {0}) × Store (Task J)
      → Type 0
  Ended f id s (r, s') =
      ((t : Task J)
        → row_of id s.rows ≡ some t
        → t.state ≡ running
        → (r ≡ ok tt)
          × (row_of id s'.rows ≡ some (f s.now t))
          × ((j : Uuid) → j ≢ id → row_of j s'.rows ≡ row_of j s.rows))
      × (runs (row_of id s.rows) ≡ false
          → ◌≡◌ {A = Result ExecuteError (Unit {0}) × Store (Task J)} (r, s')
              (err (queue (task_not_found id)), s))

  Marked-Ended :
      (f : DateTime → Task J → Task J) (id : Uuid) (s : Store (Task J))
      (p : Result QueueError (Unit {0}) × Store (Task J))
      → Marked f id s p
      → Ended f id s (map_err queue (λ _. p) s)
  Marked-Ended f id s (ok u, s') h =
      ((λ t row up. let (_, moved, rest) = h.0 t row up in (refl, moved, rest)), λ e. cc (h.1 e))
  Marked-Ended f id s (err e, s') h =
      ((λ t h1 h2. cc ((h.0 t h1 h2).0)), λ k. ap (λ p. map_err queue (λ _. p) s) (h.1 k))

  module _ (t : Task J) (a : Attempt J) (s : Store (Task J)) (up : s.faults ≡ [])
      (d : Distinct s.rows) where
    found : find_by_id t.id s ≡ (ok (row_of t.id s.rows), s)
    unfolding find_by_id
    found = rw (up, head-row_of t.id s.rows) refl

    by_start :
        (o : Option DateTime) → Marked (stopped_verdict t a.clock o) t.id s (stop t a.clock o s)
    by_start none = (marks_lem t.id none (text "Task cancelled") s up d).1
    by_start (some b) = elim (Bool-cases (leb_ℤ t.timeout_seconds (elapsed_seconds a.clock b))) [
      | inl e ↦ rw e ((marks_lem t.id none [] s up d).2)
      | inr e ↦ rw e ((marks_lem t.id none (text "Task cancelled by user") s up d).1)
    ]

    stop-Marked :
        (cur : Task J)
        → row_of t.id s.rows ≡ some cur
        → Marked (stopped_verdict t a.clock cur.started_at) t.id s (after_cancellation t a.clock s)
    stop-Marked cur h =
        subst
          (λ p.
            Marked (stopped_verdict t a.clock cur.started_at) t.id s (looked_up t a.clock p.0 p.1))
          (sym (found ∙ ap (λ o. (ok o, s)) h)) (by_start cur.started_at)

    conclude-Marked :
        (r : Result AdapterError (Unit {0})) (cur : Task J)
        → row_of t.id s.rows ≡ some cur
        → Marked (verdict t a r cur.started_at) t.id s (conclude t a r s)
    unfolding conclude
    conclude-Marked (err e) cur h = (marks_lem t.id none (to_string e) s up d).1
    conclude-Marked (ok u) cur h = elim (Bool-cases a.cancelled) [
      | inl c ↦ rw c (stop-Marked cur h)
      | inr c ↦ rw c (marks_lem t.id (some (pos 0)) [] s up d).0
    ]

  -- Let the arguments be valid, the listener start and the adapter return, and let the database be up,
  -- with no id twice, when it has. If the task's row is running then, whatever happened meanwhile, the
  -- execution returns `Ok` and writes how it ended, and the row of every other task is as it was: failed
  -- with the adapter's error; succeeded with exit code 0 if the token was not cancelled; and if it was,
  -- timed out if the timeout had passed since the row's start, else failed as cancelled. If the row is not
  -- running, say because the API canceled the task, the table stays as it is and `TaskNotFound` is returned.
  pub execute_task-ends :
      (t : Task J) (a : Attempt J) (s : Store (Task J)) (r : Result AdapterError (Unit {0}))
      (current : Task J)
      → a.validated ≡ ok tt
      → a.listens ≡ true
      → a.joined ≡ some r
      → (a.meanwhile s).faults ≡ []
      → Distinct (a.meanwhile s).rows
      → row_of t.id (a.meanwhile s).rows ≡ some current
      → Ended (verdict t a r current.started_at) t.id (a.meanwhile s) (execute_task t a s)
  unfolding execute_task conclude
  execute_task-ends t a s r current v l j up d h = rw v (
      rw l (
        rw j (
          Marked-Ended (verdict t a r current.started_at) t.id (a.meanwhile s) _
            (conclude-Marked t a (a.meanwhile s) up d r current h))))

  -- Invalid arguments end a running task before its adapter is started: it is failed with the adapter's
  -- message, and every other row stays.
  execute_task-refuses :
      (t : Task J) (a : Attempt J) (s : Store (Task J)) (e : AdapterError)
      → a.validated ≡ err e
      → s.faults ≡ []
      → Distinct s.rows
      → Ended (set_failed (text "Invalid arguments: " ++ to_string e)) t.id s (execute_task t a s)
  unfolding execute_task conclude
  execute_task-refuses t a s e v up d = rw v (
      Marked-Ended (set_failed (text "Invalid arguments: " ++ to_string e)) t.id s _
        (marks_lem t.id none (text "Invalid arguments: " ++ to_string e) s up d).1)
