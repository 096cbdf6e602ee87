-- ===== src/Store/Evolution.antt =====
-- How the rows of the table may change: what every statement keeps of a row, and what holds of each
-- row between two statements.
use axon_task.Prelude.{
  ◌≤◌, ◌≡◌, ◌≢◌, refl, ◌⊎◌, inl, inr, Bool, true, Option, none, some, [], ◌∷◌, ◌++◌, All, All-of,
  In, In-All, ap, All-keep, sym, ◌∙◌, Bool-cases, keep, if◌then◌else◌, arith,
}
use axon_task.Task.{
  DateTime, Task, pending, running, canceled, is_terminal, is_active, can_transition_to,
}
use axon_task.Store.{Table}
use axon_task.Store.Rows.{update_rows}

-- `a` is no later than `b`, where both are known.
abbrev pub NotAfter : Option DateTime → Option DateTime → Type 0
NotAfter none b = Unit
NotAfter (some a) none = Unit
NotAfter (some a) (some b) = a ≤ b

-- The life of a task as its row records it, at a time.
pub record IsWellFormed {J : Type 0} (now : DateTime) (t : Task J) : Type 0 where
  pub pending_fresh : t.state ≡ pending → t.started_at ≡ none
  pub running_started : t.state ≡ running → t.started_at ≢ none
  pub active_open : is_active t.state ≡ true → t.ended_at ≡ none
  pub terminal_ended : is_terminal t.state ≡ true → t.ended_at ≢ none
  pub unstarted : t.started_at ≡ none → (t.state ≡ pending) ⊎ (t.state ≡ canceled)
  pub ordered : NotAfter t.started_at t.ended_at
  pub started_past : NotAfter t.started_at (some now)
  pub ended_past : NotAfter t.ended_at (some now)
  pub created_first : t.created_at ≤ t.updated_at
  pub updated_past : t.updated_at ≤ now

-- One statement's change to a row: the same task, and a state that is kept or follows the machine.
pub record Moves {J : Type 0} (t u : Task J) : Type 0 where
  pub same_id : u.id ≡ t.id
  pub same_tenant : u.tenant_id ≡ t.tenant_id
  pub same_adapter : u.adapter ≡ t.adapter
  pub same_args : u.args ≡ t.args
  pub same_timeout : u.timeout_seconds ≡ t.timeout_seconds
  pub same_age : u.created_at ≡ t.created_at
  pub started_once : t.state ≢ pending → u.started_at ≡ t.started_at
  pub ended_once : is_terminal t.state ≡ true → u.ended_at ≡ t.ended_at
  pub outcome_once :
      is_terminal t.state ≡ true → (u.exit_code ≡ t.exit_code) × (u.error_message ≡ t.error_message)
  pub legal : (u.state ≡ t.state) ⊎ (can_transition_to t.state u.state ≡ true)

module _ {J : Type 0} where
  pub Moves-refl : (t : Task J) → Moves t t
  Moves-refl t = record {
    same_id = refl;
    same_tenant = refl;
    same_adapter = refl;
    same_args = refl;
    same_timeout = refl;
    same_age = refl;
    started_once = λ _. refl;
    ended_once = λ _. refl;
    outcome_once = λ _. (refl, refl);
    legal = inl refl;
  }

  -- The rows of a table, one by one, against those after a statement; new rows stand at the end.
  abbrev pub Evolves : Table J → Table J → Type 0
  Evolves [] us = Unit
  Evolves (t ∷ ts) [] = ⊥
  Evolves (t ∷ ts) (u ∷ us) = Moves t u × Evolves ts us

  pub Evolves-refl : (ts : Table J) → Evolves ts ts
  Evolves-refl [] = tt
  Evolves-refl (t ∷ ts) = (Moves-refl t, Evolves-refl ts)

  pub Evolves-append : (ts us : Table J) → Evolves ts (ts ++ us)
  Evolves-append [] us = tt
  Evolves-append (t ∷ ts) us = (Moves-refl t, Evolves-append ts us)

  -- No two rows have one id.
  abbrev pub Distinct : Table J → Type 0
  Distinct [] = Unit
  Distinct (t ∷ ts) = All (λ u. u.id ≢ t.id) ts × Distinct ts

  pub Distinct-unique :
      (t u : Task J) (ts : Table J) → Distinct ts → In t ts → In u ts → t.id ≡ u.id → t ≡ u
  Distinct-unique t u [] d h k e = absurd h
  Distinct-unique t u (x ∷ ts) d (inl p) (inl q) e = p ∙ sym q
  Distinct-unique t u (x ∷ ts) d (inl p) (inr k) e =
      absurd (In-All (λ y. y.id ≢ x.id) u ts k d.0 (sym e ∙ ap (λ y. y.id) p))
  Distinct-unique t u (x ∷ ts) d (inr h) (inl q) e =
      absurd (In-All (λ y. y.id ≢ x.id) t ts h d.0 (e ∙ ap (λ y. y.id) q))
  Distinct-unique t u (x ∷ ts) d (inr h) (inr k) e = Distinct-unique t u ts d.1 h k e

  module _ (hit : Task J → Bool) (f : Task J → Task J) where
    pub update_rows-Evolves :
        (ts : Table J)
        → All (λ t. hit t ≡ true → Moves t (f t)) ts
        → Evolves ts (update_rows hit f ts)
    update_rows-Evolves [] m = tt
    update_rows-Evolves (t ∷ ts) m = elim (Bool-cases (hit t)) [
      | inl h ↦ rw h (m.0 h, update_rows-Evolves ts m.1)
      | inr h ↦ rw h (Moves-refl t, update_rows-Evolves ts m.1)
    ]

    pub update_rows-All :
        (P : Task J → Type 0) (ts : Table J)
        → All (λ t. hit t ≡ true → P t → P (f t)) ts
        → All P ts
        → All P (update_rows hit f ts)
    update_rows-All P [] m h = tt
    update_rows-All P (t ∷ ts) m h = elim (Bool-cases (hit t)) [
      | inl e ↦ rw e (m.0 e h.0, update_rows-All P ts m.1 h.1)
      | inr e ↦ rw e (h.0, update_rows-All P ts m.1 h.1)
    ]

    module _ (same_id : (t : Task J) → (f t).id ≡ t.id) where
      row-id : (t : Task J) → (if hit t then f t else t).id ≡ t.id
      row-id t = ground (arith, same_id t)

      pub update_rows-Distinct : (ts : Table J) → Distinct ts → Distinct (update_rows hit f ts)
      update_rows-Distinct [] h = tt
      update_rows-Distinct (t ∷ ts) h = (
        rw (row-id t) (
            update_rows-All (λ u. u.id ≢ t.id) ts
              (All-of _ (λ u _ ne e. ne (sym (same_id u) ∙ e)) ts) h.0),
        update_rows-Distinct ts h.1,
      )

  pub keep-Distinct : (p : Task J → Bool) (ts : Table J) → Distinct ts → Distinct (keep p ts)
  keep-Distinct p [] h = tt
  keep-Distinct p (t ∷ ts) h = elim (Bool-cases (p t)) [
    | inl e ↦ rw e (All-keep (λ u. u.id ≢ t.id) p ts h.0, keep-Distinct p ts h.1)
    | inr e ↦ rw e (keep-Distinct p ts h.1)
  ]
