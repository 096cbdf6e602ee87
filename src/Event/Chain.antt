-- ===== src/Event/Chain.antt =====
-- The chain that `append` builds and `verify_chain` checks (models/task_event.rs): what the events of a
-- task look like in the table, and that every append keeps it so.
use axon_task.Prelude.{
  ℕ, suc, ◌+◌, ◌≤◌, ◌<◌, ◌≡◌, refl, sym, ap, ◌∙◌, inl, inr, pos, leb_ℤ, text_eq_refl, text_eq_of_eq,
  true, Option, none, some, List, [], ◌∷◌, ◌++◌, any, length, Bool-cases, ◌==◌, arith,
}
use axon_task.Event.{Bytes, TaskEvent, option_eq, compute_hash, verify_from}
use axon_task.Event.Tamper.{last_hash}
use axon_task.Event.Log.{seq_eq, newest, insert_by_seq, by_seq}

option_eq_refl : (a : Option Bytes) → option_eq a a ≡ true
option_eq_refl none = refl
option_eq_refl (some b) = text_eq_refl b

newest_step :
    {J : Type 0} (e f : TaskEvent J) (es : List (TaskEvent J))
    → newest es ≡ some f
    → leb_ℤ e.seq f.seq ≡ true
    → newest (e ∷ es) ≡ some f
unfolding newest
newest_step e f es h k = rw h (rw k refl)

module _ {J : Type 0} (sha256 : Bytes → Bytes) (to_vec : J → Option Bytes) where
  -- Events numbered from `k` on, the first of them linked to `prev`.
  abbrev pub Linked : Option Bytes → ℕ → List (TaskEvent J) → Type 0
  Linked prev k [] = Unit
  Linked prev k (e ∷ es) =
      ((e.seq ≡ pos k)
        × (e.hash_prev ≡ prev)
        × (e.hash_curr ≡ compute_hash sha256 to_vec prev e.seq e.kind e.payload))
      × Linked (some e.hash_curr) (suc k) es

  pub Linked-append :
      (prev : Option Bytes) (k : ℕ) (es : List (TaskEvent J)) (e : TaskEvent J)
      → Linked prev k es
      → e.seq ≡ pos (k + length es)
      → e.hash_prev ≡ last_hash sha256 to_vec prev es
      → e.hash_curr
        ≡ compute_hash sha256 to_vec (last_hash sha256 to_vec prev es) e.seq e.kind e.payload
      → Linked prev k (es ++ e ∷ [])
  Linked-append prev k [] e l hs hp hc = ((hs ∙ ap pos (omega arith), hp, hc), tt)
  Linked-append prev k (f ∷ fs) e l hs hp hc =
      (l.0, Linked-append (some f.hash_curr) (suc k) fs e l.1 (hs ∙ ap pos (omega arith)) hp hc)

  pub Linked-verifies :
      (prev : Option Bytes) (k : ℕ) (es : List (TaskEvent J))
      → Linked prev k es
      → verify_from sha256 to_vec prev es ≡ true
  unfolding verify_from
  Linked-verifies prev k [] l = refl
  Linked-verifies prev k (e ∷ es) l =
      rw (text_eq_of_eq _ _ (sym l.0.2), l.0.1, option_eq_refl prev)
        (Linked-verifies (some e.hash_curr) (suc k) es l.1)

  -- Every number below the next one is taken.
  pub Linked-taken :
      (prev : Option Bytes) (k n : ℕ) (es : List (TaskEvent J))
      → Linked prev k es
      → k ≤ n
      → n < k + length es
      → any (λ e. seq_eq e.seq (pos n)) es ≡ true
  Linked-taken prev k n [] l h h' = absurd (omega arith)
  Linked-taken prev k n (e ∷ es) l h h' = elim (Bool-cases (n == k)) [
    | inl here ↦ ground (arith, l.0.0)
    | inr on ↦
        let later = Linked-taken (some e.hash_curr) (suc k) n es l.1 (ground arith) (omega arith) in
        ground (arith, later)
  ]

  -- The last event of a chain is the one with the highest number.
  pub newest-Linked :
      (prev : Option Bytes) (k : ℕ) (e : TaskEvent J) (es : List (TaskEvent J))
      → Linked prev k (e ∷ es)
      → (f : TaskEvent J) × (newest (e ∷ es) ≡ some f)
        × (f.seq ≡ pos (k + length es))
        × (some f.hash_curr ≡ last_hash sha256 to_vec prev (e ∷ es))
  unfolding newest
  newest-Linked prev k e [] l = (e, refl, l.0.0 ∙ ap pos (omega arith), refl)
  newest-Linked prev k e (g ∷ es) l =
      let (f, found, hs, hh) = newest-Linked (some e.hash_curr) (suc k) g es l.1 in
      let newer : leb_ℤ e.seq f.seq ≡ true = ground (arith, l.0.0) in
      (f, newest_step e f (g ∷ es) found newer, hs ∙ ap pos (omega arith), hh)

  insert_by_seq-Linked :
      (prev : Option Bytes) (k : ℕ) (e : TaskEvent J) (es : List (TaskEvent J))
      → Linked prev k (e ∷ es)
      → insert_by_seq e es ≡ e ∷ es
  unfolding insert_by_seq
  insert_by_seq-Linked prev k e [] l = refl
  insert_by_seq-Linked prev k e (f ∷ fs) l = ground (arith, l.0.0, l.1.0.0)

  pub by_seq-Linked :
      (prev : Option Bytes) (k : ℕ) (es : List (TaskEvent J)) → Linked prev k es → by_seq es ≡ es
  unfolding by_seq
  by_seq-Linked prev k [] l = refl
  by_seq-Linked prev k (e ∷ es) l =
      ap (insert_by_seq e) (by_seq-Linked (some e.hash_curr) (suc k) es l.1)
      ∙ insert_by_seq-Linked prev k e es l
