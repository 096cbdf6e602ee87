-- ===== src/Task/Lifecycle.antt =====
-- The state machine of a task, apart from the statements that run it (models/task.rs).
use mathlib.Core.Path.{subst}
use native.Mathlib.Nat.{zero-add, suc-add}
use axon_task.Prelude.{
  ℕ, zero, suc, ◌+◌, ◌≤◌, ◌<◌, ◌≡◌, ◌≢◌, refl, sym, ap, ◌↔◌, true, false, not, arith,
}
use axon_task.Task.{
  TaskState, pending, running, succeeded, failed, canceled, timeout, is_terminal, is_active,
  can_transition_to,
}

-- Active and terminal are complementary, and the terminal states are exactly those with no way out.
terminal-no_exit :
    (s : TaskState)
    → (is_active s ≡ not (is_terminal s))
      × ((is_terminal s ≡ true) ↔ ((t : TaskState) → can_transition_to s t ≡ false))
unfolding is_active is_terminal can_transition_to
terminal-no_exit pending = (refl, ((λ e. cc), (λ h. cc (h running))))
terminal-no_exit running = (refl, ((λ e. cc), (λ h. cc (h failed))))
terminal-no_exit succeeded = (refl, ((λ _ t. refl), (λ _. refl)))
terminal-no_exit failed = (refl, ((λ _ t. refl), (λ _. refl)))
terminal-no_exit canceled = (refl, ((λ _ t. refl), (λ _. refl)))
terminal-no_exit timeout = (refl, ((λ _ t. refl), (λ _. refl)))

-- A run of the state machine: `Run n s t` makes `n` of the allowed transitions from `s` to `t`.
pub data Run : ℕ → TaskState → TaskState → Type 0 where
  here : {s : TaskState} → Run zero s s
  step : {n : ℕ} {s t u : TaskState} → can_transition_to s t ≡ true → Run n t u → Run (suc n) s u

abbrev rank : TaskState → ℕ
rank pending = 0
rank running = 1
rank _ = 2

rank-can_transition_to : (s t : TaskState) → can_transition_to s t ≡ true → rank s < rank t
unfolding can_transition_to
rank-can_transition_to s t h = ground arith

Run-rank : {n : ℕ} {s t : TaskState} → Run n s t → rank s + n ≤ rank t
Run-rank (here {s}) = omega arith
Run-rank (step {s} {t} h r) = omega (arith, rank-can_transition_to s t h, Run-rank r)

rank-le : (s : TaskState) → rank s ≤ 2
rank-le s = ground arith

-- No run makes more than two transitions, and a run that makes any ends where none has led back:
-- the state machine has no cycle.
pub Run-bounded : {n : ℕ} {s t : TaskState} → Run n s t → (n ≤ 2) × (0 < n → s ≢ t)
Run-bounded {n} {s} {t} r =
    (omega (arith, Run-rank r, rank-le t), λ p e. absurd (omega (arith, Run-rank r, ap rank e)))

pub Run-append : {m n : ℕ} {s t u : TaskState} → Run m s t → Run n t u → Run (m + n) s u
Run-append {n} {s} {u} (here) q = subst (λ k. Run k s u) (sym (zero-add n)) q
Run-append {n} {u} (step {n = k} {s} h p) q =
    subst (λ j. Run j s u) (sym (suc-add k n)) (step h (Run-append p q))
