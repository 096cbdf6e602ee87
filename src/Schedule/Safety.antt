-- ===== src/Schedule/Safety.antt =====
-- Whatever the order of the statements, and whichever of them fail, the table stays sound and each
-- task follows the state machine (`Schedule.antt`).
use axon_task.Prelude.{
  ℕ, ◌≡◌, ◌≢◌, refl, sym, inl, inr, Bool, true, false, [], ◌∷◌, ◌++◌, All, All-of, All-mono,
  All-append, Bool-cases, arith,
}
use mathlib.Core.Path.{subst}
use axon_task.Task.{Uuid, DateTime, Task, CreateTask, pending, running, is_terminal, is_active}
use axon_task.Task.Queries.{SqlError, new_row, insert_row, id_taken, in_state}
use axon_task.Task.Queries
use axon_task.Queue.{
  QueueError, mark_rows, affected_or_error, pending_tasks, is_among, mark_running, mark, limit_or,
}
use axon_task.Queue
use axon_task.Queue.Claim.{claimed-claimable}
use axon_task.Store.{Table}
use axon_task.Db.{Store, statement}
use axon_task.Store.Rows.{update_rows, rows_affected}
use axon_task.Store.Evolution.{
  IsWellFormed, Evolves, Evolves-refl, Evolves-append, Distinct, update_rows-Evolves,
  update_rows-All, update_rows-Distinct,
}
use axon_task.Db.Laws.{bind_final, try_statement-keeps, statement-keeps}
use axon_task.Schedule.Steps.{IsSafe, mark_running-Moves, mark_running-IsWellFormed}

module _ {J : Type 0} where
  -- What holds of the table between two statements, at a time.
  abbrev pub IsSoundAt : DateTime → Table J → Type 0
  IsSoundAt now ts = All (IsWellFormed now) ts × Distinct ts

  abbrev pub IsSound : Store (Task J) → Type 0
  IsSound s = IsSoundAt s.now s.rows

  -- The table after a statement, against the table before it.
  abbrev pub Follows : DateTime → Table J → Table J → Type 0
  Follows now ts us = IsSoundAt now us × Evolves ts us

  update-Follows :
      (now : DateTime) (hit : Task J → Bool) (f : Task J → Task J) (ts : Table J)
      → IsSafe now hit f
      → IsSoundAt now ts
      → Follows now ts (update_rows hit f ts)
  update-Follows now hit f ts safe (w, d) = (
    (
      update_rows-All hit f (IsWellFormed now) ts (All-of _ safe.keeps ts) w,
      update_rows-Distinct hit f safe.same_id ts d,
    ),
    update_rows-Evolves hit f ts (All-of _ safe.moves ts),
  )

  module _ (s : Store (Task J)) (sound : IsSound s) where
    pub same-Follows : Follows s.now s.rows s.rows
    same-Follows = (sound, Evolves-refl s.rows)

    -- An update that is one statement, whatever it returns.
    pub update_statement-Follows :
        {E A : Type 0} (e : E) (hit : Task J → Bool) (f : DateTime → Task J → Task J)
        (result : DateTime → Table J → A)
        → IsSafe s.now hit (f s.now)
        → let s' = (statement e (λ now ts. (result now ts, update_rows hit (f now) ts)) s).1 in
          Follows s'.now s.rows s'.rows
    update_statement-Follows e hit f result safe =
        statement-keeps (λ now us. Follows now s.rows us) e
          (λ now ts. (result now ts, update_rows hit (f now) ts)) s same-Follows
          (update-Follows s.now hit (f s.now) s.rows safe sound)

    pub mark-Follows :
        (f : DateTime → Task J → Task J) (id : Uuid)
        → IsSafe s.now (in_state id running) (f s.now)
        → let s' = (mark f id s).1 in Follows s'.now s.rows s'.rows
    mark-Follows f id safe =
        subst (λ s'. Follows s'.now s.rows s'.rows)
          (sym (bind_final (mark_rows f id) (affected_or_error id) s (λ n s'. ground arith)))
          (update_statement-Follows Queue.database (in_state id running) f
            (λ now ts. rows_affected (in_state id running) ts) safe)

    pub claimed-pending :
        (locked : Uuid → Bool) (n : ℕ)
        → All (λ t. is_among (pending_tasks locked n s.rows) t ≡ true → t.state ≡ pending) s.rows
    claimed-pending locked n =
        All-mono _ _ s.rows (λ t h k. let c = h k in ground arith)
          (claimed-claimable locked n s.rows sound.1)

    pub claim-Follows :
        (locked : Uuid → Bool) (n : ℕ)
        → let hit = is_among (pending_tasks locked n s.rows) in
          Follows s.now s.rows (update_rows hit (mark_running s.now) s.rows)
    claim-Follows locked n =
        let hit : Task J → Bool = is_among (pending_tasks locked n s.rows) in
        let waiting = claimed-pending locked n in
        (
          (
            update_rows-All hit (mark_running s.now) (IsWellFormed s.now) s.rows
                (All-mono _ _ s.rows (λ t h k. mark_running-IsWellFormed s.now 0 t (h k)) waiting)
                sound.0,
            update_rows-Distinct hit (mark_running s.now) (λ t. refl) s.rows sound.1,
          ),
          update_rows-Evolves hit (mark_running s.now) s.rows
              (All-mono _ _ s.rows (λ t h k. mark_running-Moves s.now 0 t (h k)) waiting),
        )

    -- A new row is pending, and its id is not taken.
    new_row-IsWellFormed : (id : Uuid) (d : CreateTask J) → IsWellFormed s.now (new_row id s.now d)
    unfolding is_terminal is_active
    new_row-IsWellFormed id d = ground arith

    not_taken : (id : Uuid) (ts : Table J) → id_taken id ts ≡ false → All (λ t. t.id ≢ id) ts
    not_taken id [] h = tt
    not_taken id (t ∷ ts) h = (ground arith, not_taken id ts (ground arith))

    append-Distinct :
        (t : Task J) (ts : Table J)
        → All (λ u. u.id ≢ t.id) ts
        → Distinct ts
        → Distinct (ts ++ t ∷ [])
    append-Distinct t [] h d = (tt, tt)
    append-Distinct t (u ∷ ts) h d = (
      All-append (λ v. v.id ≢ u.id) ts (t ∷ []) d.0 ((λ e. h.0 (sym e)), tt),
      append-Distinct t ts h.1 d.1,
    )

    insert-Follows :
        (id : Uuid) (d : CreateTask J)
        → id_taken id s.rows ≡ false
        → Follows s.now s.rows (s.rows ++ new_row id s.now d ∷ [])
    insert-Follows id d h = (
      (
        All-append (IsWellFormed s.now) s.rows _ sound.0 (new_row-IsWellFormed id d, tt),
        append-Distinct (new_row id s.now d) s.rows (not_taken id s.rows h) sound.1,
      ),
      Evolves-append s.rows _,
    )

    pub create-Follows :
        (id : Uuid) (d : CreateTask J)
        → let s' = (Queries.create id d s).1 in Follows s'.now s.rows s'.rows
    unfolding Queries.create
    create-Follows id d =
        try_statement-keeps (λ now us. Follows now s.rows us) Queries.database (insert_row id d) s
          same-Follows
          (λ a ts h. elim (Bool-cases (id_taken id s.rows)) [
            | inl taken ↦ absurd (ground arith)
            | inr free ↦
                let e : s.rows ++ new_row id s.now d ∷ [] ≡ ts = ground arith in
                subst (Follows s.now s.rows) e (insert-Follows id d free)
          ])
