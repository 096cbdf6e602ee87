-- ===== src/Schedule/Lives.antt =====
-- The history of one task over a whole schedule (`Schedule.antt`): it is never moved back, and how it
-- ended is never written again.
use axon_task.Prelude.{
  ℕ, zero, suc, ◌+◌, ◌≤◌, ◌≡◌, ◌≢◌, refl, sym, ◌∙◌, inl, inr, ◌⊎◌, true, false, List, [], ◌∷◌, All,
  In, arith,
}
use mathlib.Core.Path.{subst}
use axon_task.Task.{Task, TaskState, pending, is_terminal, can_transition_to}
use axon_task.Task.Lifecycle.{Run, here, step, Run-append, Run-bounded}
use axon_task.Store.{Table}
use axon_task.Db.{Store}
use axon_task.Store.Evolution.{Moves, Evolves}
use axon_task.Schedule.{Operation, perform, perform_all}
use axon_task.Schedule.Safety.{IsSound}
use axon_task.Schedule.History.{is_delete, perform-Follows, perform-IsSound}

-- A row before and after any number of statements.
pub record Lives {J : Type 0} (t u : Task J) : Type 0 where
  pub same_id : u.id ≡ t.id
  pub same_tenant : u.tenant_id ≡ t.tenant_id
  pub same_adapter : u.adapter ≡ t.adapter
  pub same_args : u.args ≡ t.args
  pub transitions : ℕ
  pub path : Run transitions t.state u.state
  pub at_most_two : transitions ≤ 2
  pub settled :
      is_terminal t.state ≡ true
      → (u.state ≡ t.state)
        × (u.ended_at ≡ t.ended_at)
        × (u.exit_code ≡ t.exit_code)
        × (u.error_message ≡ t.error_message)
        × (u.started_at ≡ t.started_at)

not_pending : (s : TaskState) → is_terminal s ≡ true → s ≢ pending
unfolding is_terminal
not_pending s h e = ground arith

stuck : (s t : TaskState) → is_terminal s ≡ true → can_transition_to s t ≡ false
unfolding is_terminal can_transition_to
stuck s t h = ground arith

move_path : (s t : TaskState) → (t ≡ s) ⊎ (can_transition_to s t ≡ true) → (n : ℕ) × Run n s t
move_path s t (inl e) = (zero, subst (Run zero s) (sym e) here)
move_path s t (inr e) = (suc zero, step e here)

module _ {J : Type 0} where
  abbrev pub Live : Table J → Table J → Type 0
  Live [] us = Unit
  Live (t ∷ ts) [] = ⊥
  Live (t ∷ ts) (u ∷ us) = Lives t u × Live ts us

  settled_move : {t u : Task J} → Moves t u → is_terminal t.state ≡ true → u.state ≡ t.state
  settled_move {t} {u} m h = elim m.legal [ inl e ↦ e | inr e ↦ cc (stuck t.state u.state h) ]

  Lives-refl : (t : Task J) → Lives t t
  Lives-refl t = record {
    same_id = refl;
    same_tenant = refl;
    same_adapter = refl;
    same_args = refl;
    transitions = 0;
    path = here;
    at_most_two = omega arith;
    settled = λ h. (refl, refl, refl, refl, refl);
  }

  Moves-Lives : {t u v : Task J} → Moves t u → Lives u v → Lives t v
  Moves-Lives {t} {u} {v} m l =
      let (n, p) = move_path t.state u.state m.legal in
      record {
        same_id = l.same_id ∙ m.same_id;
        same_tenant = l.same_tenant ∙ m.same_tenant;
        same_adapter = l.same_adapter ∙ m.same_adapter;
        same_args = l.same_args ∙ m.same_args;
        transitions = n + l.transitions;
        path = Run-append p l.path;
        at_most_two = (Run-bounded (Run-append p l.path)).0;
        settled = λ h.
            let same = settled_move m h in
            let (a, b, c, d, e) = l.settled (rw same h) in
            (
              a ∙ same,
              b ∙ m.ended_once h,
              c ∙ (m.outcome_once h).0,
              d ∙ (m.outcome_once h).1,
              e ∙ m.started_once (not_pending t.state h),
            );
      }

  Evolves-Live : (ts us vs : Table J) → Evolves ts us → Live us vs → Live ts vs
  Evolves-Live [] us vs h k = tt
  Evolves-Live (t ∷ ts) [] vs h k = absurd h
  Evolves-Live (t ∷ ts) (u ∷ us) [] h k = absurd k
  Evolves-Live (t ∷ ts) (u ∷ us) (v ∷ vs) h k = (Moves-Lives h.0 k.0, Evolves-Live ts us vs h.1 k.1)

  Live-refl : (ts : Table J) → Live ts ts
  Live-refl [] = tt
  Live-refl (t ∷ ts) = (Lives-refl t, Live-refl ts)

  -- From a sound table, over operations of any kind but deletions, in any order, any of which may fail:
  -- each row is still there, with its id, tenant, adapter and arguments. Its state has made at most two
  -- transitions, each one that `can_transition_to` allows. A task that was in a terminal state keeps
  -- that state, the times of its start and its end, its exit code and its message.
  pub perform_all-Live :
      (ops : List (Operation J)) (s : Store (Task J))
      → IsSound s
      → All (λ op. is_delete op ≡ false) ops
      → Live s.rows (perform_all ops s).rows
  unfolding perform_all
  perform_all-Live [] s h nd = Live-refl s.rows
  perform_all-Live (op ∷ ops) s h nd =
      Evolves-Live s.rows (perform op s).rows _ (perform-Follows op s h nd.0).1
        (perform_all-Live ops (perform op s) (perform-IsSound op s h) nd.1)

  -- Where a row of the table before stands afterwards.
  pub Live-In :
      (t : Task J) (ts us : Table J) → Live ts us → In t ts → (u : Task J) × In u us × Lives t u
  Live-In t [] us l h = absurd h
  Live-In t (x ∷ ts) [] l h = absurd l
  Live-In t (x ∷ ts) (u ∷ us) l (inl e) = (u, inl refl, rw e l.0)
  Live-In t (x ∷ ts) (u ∷ us) l (inr h) = let (v, k, m) = Live-In t ts us l.1 h in (v, inr k, m)
