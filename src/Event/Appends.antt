-- ===== src/Event/Appends.antt =====
-- `append` in use (models/task_event.rs): its two statements, interleaved with those of any number of
-- other writers, keep every task's events one chain.
use axon_task.Prelude.{
  ℕ, suc, ◌+◌, ◌<◌, ◌≡◌, ◌≢◌, refl, sym, ap, ◌∙◌, inl, inr, ◌⊎◌, ℤ, pos, negsuc, leb_ℤ, add_one_i64,
  i64_max, true, false, Option, none, some, List, [], ◌∷◌, ◌++◌, any, length, length-append,
  Bool-cases, not_both, ◌==◌, arith,
}
use mathlib.Core.Path.{subst}
use axon_task.Db.{DateTime}
use axon_task.Task.{Uuid}
use axon_task.Event.{Bytes, TaskEvent, AppendEvent, as_str, compute_hash}
use axon_task.Event.Tamper.{last_hash}
use axon_task.Event.Log.{
  seq_eq, of_task, newest, seq_and_hash, next_link, key_taken, admits, linked_event,
}
use axon_task.Event.Chain.{Linked, Linked-append, Linked-taken, newest-Linked}

-- What a writer holds between the two statements of `append`.
pub record Writer (J : Type 0) : Type 0 where
  pub event : AppendEvent J
  pub link : ℤ × Option Bytes

module _ {J : Type 0} where
  of_task-append_same :
      (id : Uuid) (es : List (TaskEvent J)) (e : TaskEvent J)
      → e.task_id ≡ id
      → of_task id (es ++ e ∷ []) ≡ of_task id es ++ e ∷ []
  of_task-append_same id [] e h = ground (arith, h)
  of_task-append_same id (f ∷ fs) e h = ground (arith, of_task-append_same id fs e h)

  of_task-append_other :
      (id : Uuid) (es : List (TaskEvent J)) (e : TaskEvent J)
      → e.task_id ≢ id
      → of_task id (es ++ e ∷ []) ≡ of_task id es
  of_task-append_other id [] e h = ground (arith, h)
  of_task-append_other id (f ∷ fs) e h = ground (arith, of_task-append_other id fs e h)

  -- A key is taken if the task has an event of that number.
  taken_of_task :
      (id : Uuid) (seq : ℤ) (es : List (TaskEvent J))
      → any (λ e. seq_eq e.seq seq) (of_task id es) ≡ true
      → key_taken id seq es ≡ true
  taken_of_task id seq [] h = h
  taken_of_task id seq (e ∷ es) h = ground (arith, taken_of_task id seq es)

module _ {J : Type 0} (sha256 : Bytes → Bytes) (to_vec : J → Option Bytes) where
  -- The events of every task are numbered from 0 and linked from no hash.
  abbrev pub IsChained : List (TaskEvent J) → Type 0
  IsChained es = (id : Uuid) → Linked sha256 to_vec none 0 (of_task id es)

  abbrev tip : List (TaskEvent J) → Option Bytes
  tip xs = last_hash sha256 to_vec none xs

  -- A link against the events of its task: it is the next one's, or that of a number taken by now, or of
  -- a number that has wrapped round.
  abbrev FitsIn : List (TaskEvent J) → ℤ → Option Bytes → Type 0
  FitsIn xs (negsuc n) prev = Unit
  FitsIn xs (pos n) prev = (n < length xs) ⊎ ((n ≡ length xs) × (prev ≡ tip xs))

  abbrev pub Fits : List (TaskEvent J) → Writer J → Type 0
  Fits es w = FitsIn (of_task w.event.task_id es) w.link.0 w.link.1

  next_at :
      (xs : List (TaskEvent J)) (n : ℕ) (prev : Option Bytes)
      → suc n ≡ length xs
      → prev ≡ tip xs
      → FitsIn xs (add_one_i64 (pos n)) prev
  next_at xs n prev h e = elim (Bool-cases (n == i64_max)) [
    | inl full ↦ rw full tt
    | inr room ↦ rw room (inr (omega (arith, h), e))
  ]

  newest-nil : newest {J = J} [] ≡ none
  unfolding newest
  newest-nil = refl

  -- What `append` reads is the next link.
  pub next_fits :
      (xs : List (TaskEvent J))
      → Linked sha256 to_vec none 0 xs
      → let link = next_link (seq_and_hash (newest xs)) in FitsIn xs link.0 link.1
  next_fits [] l = rw newest-nil (inr (refl, refl))
  next_fits (e ∷ xs) l =
      let (f, found, hs, hh) = newest-Linked sha256 to_vec none 0 e xs l in
      rw found (rw hs (next_at (e ∷ xs) (0 + length xs) (some f.hash_curr) (omega arith) hh))

  FitsIn-append :
      (xs : List (TaskEvent J)) (e : TaskEvent J) (z : ℤ) (prev : Option Bytes)
      → FitsIn xs z prev
      → FitsIn (xs ++ e ∷ []) z prev
  FitsIn-append xs e (negsuc n) prev h = tt
  FitsIn-append xs e (pos n) prev (inl h) = inl (omega (arith, length-append xs (e ∷ [])))
  FitsIn-append xs e (pos n) prev (inr h) = inl (omega (arith, h.0, length-append xs (e ∷ [])))

  -- A free number that is not negative is the next one.
  free-next :
      (xs : List (TaskEvent J)) (z : ℤ) (prev : Option Bytes)
      → Linked sha256 to_vec none 0 xs
      → FitsIn xs z prev
      → any (λ e. seq_eq e.seq z) xs ≡ false
      → leb_ℤ (pos 0) z ≡ true
      → (z ≡ pos (length xs)) × (prev ≡ tip xs)
  free-next xs (negsuc n) prev l f free up = absurd (ground arith)
  free-next xs (pos n) prev l (inl h) free up =
      absurd (not_both (Linked-taken sha256 to_vec none 0 n xs l (omega arith) (omega arith)) free)
  free-next xs (pos n) prev l (inr h) free up = (ap pos h.0, h.1)

  module _ (es : List (TaskEvent J)) (w : Writer J) (now : DateTime) where
    abbrev pub inserted : TaskEvent J
    inserted = linked_event sha256 to_vec w.event w.link now

    module _ (chained : IsChained es) (fits : Fits es w)
        (admitted : admits inserted es ≡ true) where
      -- A row that the schema admits has the next link.
      admitted-next :
          (w.link.0 ≡ pos (length (of_task w.event.task_id es)))
          × (w.link.1 ≡ tip (of_task w.event.task_id es))
      admitted-next =
          elim (Bool-cases (any (λ e. seq_eq e.seq w.link.0) (of_task w.event.task_id es))) [
            | inl t ↦
                let taken = taken_of_task w.event.task_id w.link.0 es t in
                absurd (ground (arith, taken))
            | inr free ↦
                free-next (of_task w.event.task_id es) w.link.0 w.link.1 (chained w.event.task_id)
                  fits free (ground arith)
          ]

      own_chain : Linked sha256 to_vec none 0 (of_task w.event.task_id (es ++ inserted ∷ []))
      own_chain =
          let own = of_task w.event.task_id es in
          let (hs, hp) = admitted-next in
          subst (Linked sha256 to_vec none 0)
            (sym (of_task-append_same w.event.task_id es inserted refl))
            (Linked-append sha256 to_vec none 0 own inserted (chained w.event.task_id)
              (hs ∙ ap pos (omega arith)) hp
              (ap (λ p. compute_hash sha256 to_vec p w.link.0 (as_str w.event.kind) w.event.payload)
                hp))

      pub insert-IsChained : IsChained (es ++ inserted ∷ [])
      insert-IsChained id = elim (Bool-cases (w.event.task_id == id)) [
        | inl same ↦
            subst (λ i. Linked sha256 to_vec none 0 (of_task i (es ++ inserted ∷ [])))
              (ground arith) own_chain
        | inr other ↦
            subst (Linked sha256 to_vec none 0)
              (sym (of_task-append_other id es inserted (ground arith))) (chained id)
      ]

    pub insert-Fits : (v : Writer J) → Fits es v → Fits (es ++ inserted ∷ []) v
    insert-Fits v fits = elim (Bool-cases (w.event.task_id == v.event.task_id)) [
      | inl same ↦
          subst (λ xs. FitsIn xs v.link.0 v.link.1)
            (sym (of_task-append_same v.event.task_id es inserted (ground arith)))
            (FitsIn-append (of_task v.event.task_id es) inserted v.link.0 v.link.1 fits)
      | inr other ↦
          subst (λ xs. FitsIn xs v.link.0 v.link.1)
            (sym (of_task-append_other v.event.task_id es inserted (ground arith))) fits
    ]
