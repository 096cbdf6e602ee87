-- ===== src/Api/Isolation.antt =====
-- A tenant's request touches no task of another tenant (`cancel_task` of
-- axontask-api/src/routes/mcp/cancel_task.rs).
use axon_task.Prelude.{
  ◌≡◌, ◌≢◌, refl, sym, ap, ◌∙◌, inl, inr, ◌⊎◌, text, Bool, true, false, ◌&&◌, Option, none, some,
  List, [], ◌∷◌, keep, head?, All, All-mono, All-In, All-both, In, Result, ok, err, Bool-cases,
  ◌==◌, arith,
}
use mathlib.Core.Path.{subst}
use axon_task.Task.{Uuid, Task, TaskState, pending, running, succeeded, failed, canceled, timeout}
use axon_task.Task.Queries.{
  database, find_by_id_and_tenant, transition_to_canceled, cancelable, cancel,
}
use axon_task.Store.{Table}
use axon_task.Store.Rows.{update_rows, returning_one}
use axon_task.Store.Evolution.{Distinct-unique}
use axon_task.Db.{Store, map_err, pure, or_raise}
use axon_task.Db.Laws.{bind_final, bind-ok, map_err-ok, statement-keeps, map_err_final}
use axon_task.Schedule.{Operation, perform_all}
use axon_task.Schedule.Safety.{IsSound}
use axon_task.Schedule.History.{is_delete, perform_all-IsSound}
use axon_task.Schedule.Lives.{Live-In, perform_all-Live}
use axon_task.Api.CancelTask.{
  ApiError, as_internal, not_found, CancelTaskResponse, requested, state_or_pending, look_up,
  update, on_state, cancel_task,
}

module _ {J : Type 0} where
  pub head-keep :
      (p : Task J → Bool) (ts : Table J) (t : Task J)
      → head? (keep p ts) ≡ some t
      → In t ts × (p t ≡ true)
  head-keep p [] t h = cc
  head-keep p (x ∷ ts) t h = elim (Bool-cases (p x)) [
    | inl e ↦ let same : x ≡ t = cc (rw e at h) in (inl (sym same), subst (λ y. p y ≡ true) same e)
    | inr e ↦ let (i, q) = head-keep p ts t (rw e at h) in (inr i, q)
  ]

  -- The rows that an update passes over are still there.
  update_rows-others :
      (hit : Task J → Bool) (f : Task J → Task J) (ts : Table J)
      → All (λ t. hit t ≡ false → In t (update_rows hit f ts)) ts
  update_rows-others hit f [] = tt
  update_rows-others hit f (x ∷ ts) = (
    (λ e. rw e (inl refl)),
    All-mono _ (λ t. hit t ≡ false → In t (update_rows hit f (x ∷ ts))) ts (λ t k e. inr (k e))
        (update_rows-others hit f ts),
  )

  update-others :
      (id : Uuid) (s : Store (Task J))
      → All (λ t. cancelable id t ≡ false → In t (update id s).1.rows) s.rows
  unfolding transition_to_canceled
  update-others id s =
      subst (λ (s' : Store (Task J)). All (λ t. cancelable id t ≡ false → In t s'.rows) s.rows)
        (sym (
          bind_final
            (map_err (as_internal (text "Failed to cancel task")) (transition_to_canceled id))
            (λ updated. pure (requested id (state_or_pending updated))) s (λ a s'. refl)
          ∙ map_err_final (as_internal (text "Failed to cancel task")) (transition_to_canceled id)
              s))
        (statement-keeps (λ now us. All (λ t. cancelable id t ≡ false → In t us) s.rows) database
          (λ now ts. (
            returning_one (cancelable id) (cancel now) ts,
            update_rows (cancelable id) (cancel now) ts,
          ))
          s
          (All-mono _ (λ t. cancelable id t ≡ false → In t s.rows) s.rows (λ t i e. i)
            (All-In s.rows))
          (update_rows-others (cancelable id) (cancel s.now) s.rows))

  abbrev pub of_tenant : Uuid → Uuid → Task J → Bool
  of_tenant tenant id t = t.id == id && t.tenant_id == tenant

  abbrev pub or_not_found : Option (Task J) → Result ApiError (Task J)
  or_not_found none = err (not_found (text "Task not found"))
  or_not_found (some t) = ok t

  or_raise-or_not_found :
      (o : Option (Task J)) (s : Store (Task J))
      → or_raise {E = ApiError} (not_found (text "Task not found")) o s ≡ (or_not_found o, s)
  or_raise-or_not_found none s = refl
  or_raise-or_not_found (some t) s = refl

  module _ (tenant id : Uuid) (s : Store (Task J)) (up : s.faults ≡ []) where
    abbrev pub visible : Option (Task J)
    visible = head? (keep (of_tenant tenant id) s.rows)

    pub look_up-visible : look_up tenant id s ≡ (or_not_found visible, s)
    unfolding find_by_id_and_tenant
    look_up-visible =
        bind-ok
          (map_err (as_internal (text "Failed to query task")) (find_by_id_and_tenant id tenant))
          (λ found. or_raise (not_found (text "Task not found")) found) s s visible
          (map_err-ok (as_internal (text "Failed to query task")) (find_by_id_and_tenant id tenant)
            s s visible (rw up refl))
        ∙ or_raise-or_not_found visible s

    module _ (ops : List (Operation J)) where
      -- Nothing was done, or rows of other tenants are what the others made of them.
      abbrev pub Spares : Store (Task J) → Type 0
      Spares s' = (s' ≡ s) ⊎ All (λ t. t.tenant_id ≢ tenant → In t s'.rows) (perform_all ops s).rows

      module _ (sound : IsSound s) (kept : All (λ op. is_delete op ≡ false) ops) where
        others_safe :
            (u t : Task J)
            → visible ≡ some u
            → In t (perform_all ops s).rows
            → t.tenant_id ≢ tenant
            → cancelable id t ≡ false
        others_safe u t found here other = elim (Bool-cases (t.id == id)) [
          | inl e ↦
              let (u_in, u_key) = head-keep (of_tenant tenant id) s.rows u found in
              let (v, v_in, life) = Live-In u s.rows _ (perform_all-Live ops s sound kept) u_in in
              let same : v ≡ t =
                Distinct-unique v t (perform_all ops s).rows (perform_all-IsSound ops s sound).1
                  v_in here (life.same_id ∙ (ground arith)) in
              absurd (other (ap (λ x. x.tenant_id) (sym same) ∙ life.same_tenant ∙ (ground arith)))
          | inr e ↦ ground arith
        ]

        update-Spares : (u : Task J) → visible ≡ some u → Spares (update id (perform_all ops s)).1
        update-Spares u found = inr (
            All-mono
              (λ t.
                In t (perform_all ops s).rows
                × (cancelable id t ≡ false → In t (update id (perform_all ops s)).1.rows))
              (λ t. t.tenant_id ≢ tenant → In t (update id (perform_all ops s)).1.rows)
              (perform_all ops s).rows (λ t h other. h.1 (others_safe u t found h.0 other))
              (All-both (λ t. In t (perform_all ops s).rows) _ (perform_all ops s).rows
                (All-In (perform_all ops s).rows) (update-others id (perform_all ops s))))

        on_state-Spares :
            (u : Task J) (st : TaskState)
            → visible ≡ some u
            → Spares (on_state id (perform_all ops) st s).1
        on_state-Spares u pending found = update-Spares u found
        on_state-Spares u running found = update-Spares u found
        on_state-Spares u succeeded found = inl refl
        on_state-Spares u failed found = inl refl
        on_state-Spares u canceled found = inl refl
        on_state-Spares u timeout found = inl refl

        looked-Spares :
            (o : Option (Task J))
            → visible ≡ o
            → Spares
                (let p : Result ApiError CancelTaskResponse × Store (Task J) =
                    elim (or_not_found o) [
                      | ok t ↦ on_state id (perform_all ops) t.state s
                      | err e ↦ (err e, s)
                    ] in
                  p).1
        looked-Spares none found = inl refl
        looked-Spares (some u) found = on_state-Spares u u.state found

        -- Let the database be up and the table sound when `cancel_task` looks the task up, and let others run
        -- statements of any kind but deletions before it updates. Either it does nothing at all, or every
        -- row of another tenant is exactly as those statements left it, whatever id was asked for.
        pub cancel_task_isolated : Spares (cancel_task tenant id (perform_all ops) s).1
        unfolding cancel_task
        cancel_task_isolated =
            subst (λ s'. Spares s')
              (sym (
                ap
                  (λ (p : Result ApiError (Task J) × Store (Task J)).
                    let q : Result ApiError CancelTaskResponse × Store (Task J) = elim p.0 [
                      | ok t ↦ on_state id (perform_all ops) t.state p.1
                      | err e ↦ (err e, p.1)
                    ] in
                    q.1)
                  look_up-visible))
              (looked-Spares visible refl)
