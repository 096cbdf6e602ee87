-- ===== src/Api/Answers.antt =====
-- What `cancel_task` answers and does when nothing comes between its statements
-- (axontask-api/src/routes/mcp/cancel_task.rs).
use axon_task.Prelude.{
  ◌≡◌, refl, sym, ap, ◌∙◌, inl, inr, text, Bool, true, ◌&&◌, ◌||◌, Option, none, some, [], ◌∷◌, In,
  ok, err, Bool-cases, ◌==◌, arith,
}
use axon_task.Task.{
  Uuid, Task, TaskState, pending, running, succeeded, failed, canceled, timeout, same_state,
  is_active, is_terminal,
}
use axon_task.Task.Queries.{transition_to_canceled, cancelable, cancel}
use axon_task.Store.{Table}
use axon_task.Store.Rows.{update_rows, returning_one}
use axon_task.Db.{Store, map_err, pure}
use axon_task.Db.Laws.{bind-ok, bind-err, map_err-ok}
use axon_task.Api.CancelTask.{
  as_internal, not_found, already, requested, state_or_pending, look_up, update, on_state,
  cancel_task,
}
use axon_task.Api.Isolation.{visible, look_up-visible, head-keep, of_tenant, or_not_found}

module _ {J : Type 0} where
  canceled_one :
      (hit : Task J → Bool) (f : Task J → Task J) (same : (t : Task J) → (f t).state ≡ canceled)
      (ts : Table J) (u : Task J)
      → In u ts
      → hit u ≡ true
      → state_or_pending (returning_one hit f ts) ≡ canceled
  canceled_one hit f same [] u i h = absurd i
  canceled_one hit f same (x ∷ ts) u (inl e) h = rw (ap hit (sym e) ∙ h) (same x)
  canceled_one hit f same (x ∷ ts) u (inr i) h = elim (Bool-cases (hit x)) [
    | inl e ↦ rw e (same x)
    | inr e ↦ rw e (canceled_one hit f same ts u i h)
  ]

  module _ (tenant id : Uuid) (s : Store (Task J)) (up : s.faults ≡ []) where
    abbrev pub canceled_rows : Store (Task J)
    canceled_rows = record s { rows = update_rows (cancelable id) (cancel s.now) s.rows }

    updated :
        (u : Task J)
        → In u s.rows
        → cancelable id u ≡ true
        → update id s ≡ (ok (requested id canceled), canceled_rows)
    unfolding transition_to_canceled
    updated u i h =
        bind-ok (map_err (as_internal (text "Failed to cancel task")) (transition_to_canceled id))
          (λ found. pure (requested id (state_or_pending found))) s canceled_rows
          (returning_one (cancelable id) (cancel s.now) s.rows)
          (map_err-ok (as_internal (text "Failed to cancel task")) (transition_to_canceled id) s
            canceled_rows (returning_one (cancelable id) (cancel s.now) s.rows) (rw up refl))
        ∙ ap (λ st. (ok (requested id st), canceled_rows))
            (canceled_one (cancelable id) (cancel s.now) (λ t. refl) s.rows u i h)

    found :
        (o : Option (Task J))
        → visible tenant id s up ≡ o
        → look_up tenant id s ≡ (or_not_found o, s)
    found o h = look_up-visible tenant id s up ∙ ap (λ x. (or_not_found x, s)) h

    on_terminal :
        (st : TaskState)
        → is_terminal st ≡ true
        → on_state id (λ x. x) st s ≡ (ok (already id st), s)
    unfolding is_terminal
    on_terminal pending h = cc
    on_terminal running h = cc
    on_terminal succeeded h = refl
    on_terminal failed h = refl
    on_terminal canceled h = refl
    on_terminal timeout h = refl

    on_active : (st : TaskState) → is_active st ≡ true → on_state id (λ x. x) st s ≡ update id s
    unfolding is_active
    on_active pending h = refl
    on_active running h = refl
    on_active succeeded h = cc
    on_active failed h = cc
    on_active canceled h = cc
    on_active timeout h = cc

    hit_active :
        (u : Task J)
        → visible tenant id s up ≡ some u
        → is_active u.state ≡ true
        → cancelable id u ≡ true
    unfolding is_active
    hit_active u h a =
        let key = (head-keep (of_tenant tenant id) s.rows u h).1 in
        let own : u.id == id ≡ true = ground (arith, key) in active_hit u.state (u.id == id) own a
      where
        active_hit :
            (st : TaskState) (b : Bool)
            → b ≡ true
            → is_active st ≡ true
            → b && (same_state st pending || same_state st running) ≡ true
        active_hit st b e k = ground arith

    -- With the database up and nothing between its statements, `cancel_task` does one of three things. If its
    -- tenant has no task of that id, the answer is `NotFound`. If the task has ended, the answer says so, with
    -- its state, and that nothing was canceled. Neither changes anything. If the task is pending or running, it
    -- is canceled and nothing else is touched, and the answer gives the state `canceled`.
    pub cancel_task_answers :
        (visible tenant id s up ≡ none
          → cancel_task tenant id (λ x. x) s ≡ (err (not_found (text "Task not found")), s))
        × ((u : Task J)
            → visible tenant id s up ≡ some u
            → is_terminal u.state ≡ true
            → cancel_task tenant id (λ x. x) s ≡ (ok (already id u.state), s))
        × ((u : Task J)
            → visible tenant id s up ≡ some u
            → is_active u.state ≡ true
            → cancel_task tenant id (λ x. x) s ≡ (ok (requested id canceled), canceled_rows))
    unfolding cancel_task
    cancel_task_answers = (
      (λ h. bind-err (look_up tenant id) (λ t. on_state id (λ x. x) t.state) s s _ (found none h)),
      (λ u h e.
          bind-ok (look_up tenant id) (λ t. on_state id (λ x. x) t.state) s s u (found (some u) h)
          ∙ on_terminal u.state e),
      (λ u h e.
          bind-ok (look_up tenant id) (λ t. on_state id (λ x. x) t.state) s s u (found (some u) h)
          ∙ on_active u.state e
          ∙ updated u (head-keep (of_tenant tenant id) s.rows u h).0 (hit_active u h e)),
    )
