-- ===== src/Quota/Limits.antt =====
-- What the quotas promise of `start_task` (axontask-shared/src/quota.rs and
-- axontask-api/src/routes/mcp/start_task.rs).
use axon_task.Prelude.{
  ℕ, suc, ◌+◌, ◌-◌, ◌≤◌, ◌<◌, ◌≡◌, refl, sym, ap, ◌∙◌, inl, inr, Text, Bool, true, false, not, ◌&&◌,
  Option, some, List, [], ◌∷◌, ◌++◌, length, Result, ok, err, Bool-cases, arith,
}
use mathlib.Core.Path.{subst}
use axon_task.Task.{Uuid, DateTime, Task}
use axon_task.Task.Queries.{
  database, SqlError, create, insert_row, new_row, id_taken, timeout_in_range,
}
use axon_task.Store.Rows.{rows_affected}
use axon_task.Db.{Store, Query, ◌>>◌, pure, map_err}
use axon_task.Db.Laws.{try_statement-keeps, bind-ok, bind-err, bind_final, map_err_final}
use axon_task.Quota.{concurrent_tasks, daily_tasks, limits_of, get, is_running_of, is_recent_of}
use axon_task.Quota.Start.{
  ApiError, forbidden, StartTaskRequest, StartTaskResponse, Requester, create_error, new_task,
  response, insert, within, meanwhile, start_task,
}
use axon_task.Quota.Checks.{used, is_full, refused, passed}

module _ {J : Type 0} (find_plan : Uuid → Result SqlError (Option Text))
    (print_id : Uuid → Text) where
  count-append :
      (p : Task J → Bool) (ts : List (Task J)) (t : Task J)
      → (rows_affected p (ts ++ t ∷ []) ≤ suc (rows_affected p ts))
        × (p t ≡ false → rows_affected p (ts ++ t ∷ []) ≡ rows_affected p ts)
  count-append p [] t = (ground arith, ground arith)
  count-append p (x ∷ ts) t =
      let (le, same) = count-append p ts t in (ground (arith, le), ground (arith, same))

  module _ (auth : Requester) (clock : DateTime) (s : Store (Task J)) (id : Uuid)
      (request : StartTaskRequest J) where
    -- The row that is added is one more of the day, and does not run.
    abbrev Counts : List (Task J) → Type 0
    Counts ts =
        (used find_plan print_id auth.tenant_id clock ts daily_tasks
          ≤ suc (used find_plan print_id auth.tenant_id clock s.rows daily_tasks))
        × (used find_plan print_id auth.tenant_id clock ts concurrent_tasks
            ≡ used find_plan print_id auth.tenant_id clock s.rows concurrent_tasks)

    inserted-Counts :
        (t : Task J) (ts : List (Task J))
        → insert_row id (new_task find_plan print_id auth request) s.now s.rows ≡ some (t, ts)
        → Counts ts
    inserted-Counts t ts h =
        let d = new_task find_plan print_id auth request in
        elim (Bool-cases (not (id_taken id s.rows) && timeout_in_range d.timeout_seconds)) [
          | inl free ↦
              let e : s.rows ++ new_row id s.now d ∷ [] ≡ ts = cc (rw free at h) in
              subst Counts e (
                (count-append (is_recent_of auth.tenant_id clock) s.rows (new_row id s.now d)).0,
                (count-append (is_running_of auth.tenant_id) s.rows (new_row id s.now d)).1
                    (ground arith),
              )
          | inr bad ↦ cc (rw bad at h)
        ]

    insert-Counts : Counts (insert find_plan print_id id auth request s).1.rows
    unfolding create
    insert-Counts =
        let d = new_task find_plan print_id auth request in
        subst (λ (s' : Store (Task J)). Counts s'.rows)
          (sym (
            bind_final (map_err create_error (create id d))
              (λ t. pure (response find_plan print_id t)) s (λ a s'. refl)
            ∙ map_err_final create_error (create id d) s))
          (try_statement-keeps (λ now ts. Counts ts) database (insert_row id d) s
            (omega arith, refl) inserted-Counts)

  -- Let the tenant have a plan, the table less than 2 ^ 32 rows, and the database be up, at each of the two checks,
  -- between which and before the insertion others do anything. If as many tasks of the tenant run as its plan
  -- allows, a valid request is refused, and so it is if, at the second check, as many were created in the last day
  -- as the plan allows; the answer names the use and the limit, and the request changes nothing. Otherwise it goes
  -- through to the insertion. After that the day's tasks are more than the plan allows at most by what others have
  -- added since the second check, and as many run as just before.
  pub start_task_limits :
      (auth : Requester) (clock : DateTime)
      (before_daily before_insert : Store (Task J) → Store (Task J)) (s : Store (Task J))
      (plan : Text) (id : Uuid) (request : StartTaskRequest J)
      → find_plan auth.tenant_id ≡ ok (some plan)
      → (s.faults ≡ []) × (length s.rows < 4294967296)
      → ((before_daily s).faults ≡ []) × (length (before_daily s).rows < 4294967296)
      → let result =
          start_task find_plan print_id true id clock before_daily before_insert auth request s in
        let s1 = before_daily s in
        let s2 = before_insert s1 in
        let limits = limits_of plan in
        let full = is_full find_plan print_id auth clock plan in
        let uses = used find_plan print_id auth.tenant_id clock in
        (full s.rows concurrent_tasks ≡ true
          → result ≡ (
            err (forbidden concurrent_tasks (uses s.rows concurrent_tasks) limits.concurrent),
            s,
          ))
        × (full s.rows concurrent_tasks ≡ false
            → full s1.rows daily_tasks ≡ true
            → result ≡ (err (forbidden daily_tasks (uses s1.rows daily_tasks) limits.daily), s1))
        × (full s.rows concurrent_tasks ≡ false
            → full s1.rows daily_tasks ≡ false
            → (result ≡ insert find_plan print_id id auth request s2)
              × (uses result.1.rows daily_tasks
                  ≤ limits.daily + (uses s2.rows daily_tasks - uses s1.rows daily_tasks))
              × (uses result.1.rows concurrent_tasks ≡ uses s2.rows concurrent_tasks))
  unfolding start_task get
  start_task_limits auth clock before_daily before_insert s plan id request planned (up, fits)
        (up1, fits1) =
      (
        (λ h.
            bind-err (within find_plan print_id auth clock concurrent_tasks) after_concurrent s s _
              (refused find_plan print_id auth clock s up fits plan planned concurrent_tasks h)),
        (λ h k.
            first h
            ∙ bind-err (within find_plan print_id auth clock daily_tasks) after_daily s1 s1 _
                (refused find_plan print_id auth clock s1 up1 fits1 plan planned daily_tasks k)),
        (λ h k.
            let through =
              first h
              ∙ bind-ok (within find_plan print_id auth clock daily_tasks) after_daily s1 s1 tt
                  (passed find_plan print_id auth clock s1 up1 fits1 plan planned daily_tasks k) in
            let added = insert-Counts auth clock (before_insert s1) id request in
            (
              through,
              subst
                  (λ (s' : Store (Task J)).
                    used find_plan print_id auth.tenant_id clock s'.rows daily_tasks
                    ≤ (limits_of plan).daily
                      + (used find_plan print_id auth.tenant_id clock (before_insert s1).rows
                            daily_tasks
                          - used find_plan print_id auth.tenant_id clock s1.rows daily_tasks))
                  (sym (ap (λ p. p.1) through)) (below k added.0),
              ap (λ p. used find_plan print_id auth.tenant_id clock p.1.rows concurrent_tasks)
                    through
                  ∙ added.1,
            )),
      )
    where
      s1 : Store (Task J)
      s1 = before_daily s

      after_daily : Unit {0} → Query (Task J) ApiError StartTaskResponse
      after_daily u =
          meanwhile find_plan print_id before_insert >> insert find_plan print_id id auth request

      after_concurrent : Unit {0} → Query (Task J) ApiError StartTaskResponse
      after_concurrent u =
          meanwhile find_plan print_id before_daily
          >> (within find_plan print_id auth clock daily_tasks >> after_daily tt)

      first :
          is_full find_plan print_id auth clock plan s.rows concurrent_tasks ≡ false
          → start_task find_plan print_id true id clock before_daily before_insert auth request s
            ≡ (within find_plan print_id auth clock daily_tasks >> after_daily tt) s1
      first h =
          bind-ok (within find_plan print_id auth clock concurrent_tasks) after_concurrent s s tt
            (passed find_plan print_id auth clock s up fits plan planned concurrent_tasks h)

      below :
          {n u : ℕ}
          → is_full find_plan print_id auth clock plan s1.rows daily_tasks ≡ false
          → n ≤ suc u
          → n
            ≤ (limits_of plan).daily
              + (u - used find_plan print_id auth.tenant_id clock s1.rows daily_tasks)
      below k le = ground (arith, k, le)
