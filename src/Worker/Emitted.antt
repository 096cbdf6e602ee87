-- ===== src/Worker/Emitted.antt =====
-- What a worker's emitter writes, over all its tasks (axontask-worker/src/events.rs).
use axon_task.Prelude.{
  ℕ, suc, ◌+◌, ◌≤◌, ◌≡◌, refl, sym, ap, ◌∙◌, pos, add_one_i64, i64_max, Text, Option, none, some,
  List, [], ◌∷◌, ◌++◌, length, Result, arith,
}
use mathlib.Core.Path.{subst}
use axon_task.Task.{DateTime}
use axon_task.Db.{Store}
use axon_task.Db.Laws.{statement_up}
use axon_task.Event.{Bytes, TaskEvent}
use axon_task.Worker.Emitter.{
  EmitterState, new, redis, Emission, compute_hash, task_event, emit, emit_all,
}

module _ {A : Type 0} where
  append_assoc : (xs ys zs : List A) → (xs ++ ys) ++ zs ≡ xs ++ (ys ++ zs)
  append_assoc [] ys zs = refl
  append_assoc (x ∷ xs) ys zs = ap (λ ws. x ∷ ws) (append_assoc xs ys zs)

  append_nil : (xs : List A) → xs ++ [] ≡ xs
  append_nil [] = refl
  append_nil (x ∷ xs) = ap (λ ws. x ∷ ws) (append_nil xs)

module _ {J : Type 0} (sha256 : Bytes → Bytes) (to_json : J → Text)
    (to_rfc3339 : DateTime → Text) where
  -- A chain by the emitter's own hash, from a hash and a number.
  abbrev pub IsEmitted : Option Bytes → ℕ → List (TaskEvent J) → Type 0
  IsEmitted prev k [] = Unit
  IsEmitted prev k (e ∷ es) =
      ((e.seq ≡ pos k)
        × (e.hash_prev ≡ prev)
        × (e.hash_curr ≡ compute_hash sha256 to_json to_rfc3339 e.seq e.kind e.payload e.ts prev))
      × IsEmitted (some e.hash_curr) (suc k) es

  written :
      (x : Emission J) (st : EmitterState) (s : Store (TaskEvent J))
      → s.faults ≡ []
      → let e = task_event sha256 to_json to_rfc3339 st x in
        (emit sha256 to_json to_rfc3339 x (st, s)).1 ≡ (
          record { seq = add_one_i64 st.seq; prev_hash = some e.hash_curr },
          record s { rows = s.rows ++ e ∷ [] },
        )
  unfolding emit
  written x st s up =
      let e = task_event sha256 to_json to_rfc3339 st x in
      ap
        (λ (p : Result _ (Unit {0}) × Store (TaskEvent J)).
          (record { seq = add_one_i64 st.seq; prev_hash = some e.hash_curr }, p.1))
        (statement_up redis (λ now es. (tt, es ++ e ∷ [])) s up)

  next_number : (k : ℕ) → suc k ≤ i64_max → add_one_i64 (pos k) ≡ pos (suc k)
  next_number k h = ground arith

  produced :
      (xs : List (Emission J)) (prev : Option Bytes) (k : ℕ) (s : Store (TaskEvent J))
      → s.faults ≡ []
      → k + length xs ≤ i64_max
      → (es : List (TaskEvent J)) × ((emit_all sha256 to_json to_rfc3339 xs
            (record { seq = pos k; prev_hash = prev }, s)).1.rows
          ≡ s.rows ++ es)
        × (length es ≡ length xs)
        × IsEmitted prev k es
  unfolding emit_all
  produced [] prev k s up n = ([], sym (append_nil s.rows), refl, tt)
  produced (x ∷ xs) prev k s up n =
      let e = task_event sha256 to_json to_rfc3339 (record { seq = pos k; prev_hash = prev }) x in
      let (es, rows, len, linked) =
        produced xs (some e.hash_curr) (suc k) (record s { rows = s.rows ++ e ∷ [] }) up
          (omega arith) in
      let state =
        written x (record { seq = pos k; prev_hash = prev }) s up
        ∙ ap
            (λ z. (
              record { seq = z; prev_hash = some e.hash_curr },
              record s { rows = s.rows ++ e ∷ [] },
            ))
            (next_number k (omega arith)) in
      (
        e ∷ es,
        ap (λ p. (emit_all sha256 to_json to_rfc3339 xs p).1.rows) state
            ∙ rows
            ∙ append_assoc s.rows (e ∷ []) es,
        ap suc len,
        ((refl, refl, refl), linked),
      )

  -- Let a new emitter emit a list of events, of any tasks, each call after the end of the one before, while Redis
  -- answers and the numbers fit `i64`. Then
  -- all that it has written, taken together and in order, is one chain: numbered 0, 1, 2 and so on, each event
  -- with the hash of the one before, of whichever task, and its own.
  pub emit_all-IsEmitted :
      (xs : List (Emission J)) (now : DateTime)
      → length xs ≤ i64_max
      → let s =
          (emit_all sha256 to_json to_rfc3339 xs
            (new, record { rows = []; now = now; faults = [] })).1 in
        (length s.rows ≡ length xs) × IsEmitted none 0 s.rows
  emit_all-IsEmitted xs now n =
      let (es, rows, len, linked) =
        produced xs none 0 (record { rows = []; now = now; faults = [] }) refl (omega arith) in
      (ap length rows ∙ len, subst (IsEmitted none 0) (sym rows) linked)
