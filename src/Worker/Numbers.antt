-- ===== src/Worker/Numbers.antt =====
-- What overlapping calls of `emit` keep (axontask-worker/src/events.rs): the numbers of their events.
use mathlib.Core.Path.{subst}
use mathlib.Core.Option.{some-injective}
use axon_task.Prelude.{
  ℕ, suc, ◌+◌, ◌≤◌, ◌≡◌, ◌≢◌, refl, sym, ap, ◌∙◌, inl, inr, pos, add_one_i64, i64_max, Text, Bool,
  true, false, Option, none, some, List, [], ◌∷◌, ◌++◌, length, length-append, get_elem?, All,
  All-append, All-mono, Bool-cases, ◌==◌, ==_iff, arith,
}
use axon_task.Task.{DateTime}
use axon_task.Event.{Bytes, TaskEvent}
use axon_task.Worker.Emitter.{EmitterState, Emission, compute_hash, emit}
use axon_task.Worker.Places.{put-here, put-elsewhere, length-put, in_front, found_in}
use axon_task.Worker.Overlap.{
  Call, numbered, linked, ready, written, failed, World, Step, begin, go_on, put, event_of, resume,
  take_step, take_steps, idle,
}

module _ {J : Type 0} (sha256 : Bytes → Bytes) (to_json : J → Text)
    (to_rfc3339 : DateTime → Text) where
  -- An event that carries the hash of its own content, with the number of its call.
  abbrev pub IsOwn : TaskEvent J → Type 0
  IsOwn e =
      e.hash_curr ≡ compute_hash sha256 to_json to_rfc3339 e.seq e.kind e.payload e.ts e.hash_prev

  abbrev IsAt : ℕ → Call J → Type 0
  IsAt i (numbered seq x) = seq ≡ pos i
  IsAt i (linked e) = (e.seq ≡ pos i) × IsOwn e
  IsAt i (ready e) = (e.seq ≡ pos i) × IsOwn e
  IsAt i (written e) = (e.seq ≡ pos i) × IsOwn e
  IsAt i (failed e) = (e.seq ≡ pos i) × IsOwn e

  -- No two events have one number.
  abbrev pub Apart : List (TaskEvent J) → Type 0
  Apart [] = Unit
  Apart (e ∷ es) = All (λ f. f.seq ≢ e.seq) es × Apart es

  Apart-append :
      (e : TaskEvent J) (es : List (TaskEvent J))
      → Apart es
      → All (λ f. f.seq ≢ e.seq) es
      → Apart (es ++ e ∷ [])
  Apart-append e [] a n = (tt, tt)
  Apart-append e (f ∷ es) a n = (
    All-append (λ g. g.seq ≢ f.seq) es (e ∷ []) a.0 ((λ q. n.0 (sym q)), tt),
    Apart-append e es a.1 n.1,
  )

  abbrev IsWritten : List (Call J) → TaskEvent J → Type 0
  IsWritten calls e = (i : ℕ) × (get_elem? calls i ≡ some (written e))

  record Numbered (w : World J) : Type 0 where
    next : w.state.seq ≡ pos (length w.calls)
    placed : (i : ℕ) (c : Call J) → get_elem? w.calls i ≡ some c → IsAt i c
    known : All (IsWritten w.calls) w.rows
    apart : Apart w.rows

  -- A call that is not done comes one step further.
  module _ (w : World J) (h : Numbered w) (n : ℕ) (c d : Call J)
      (here : get_elem? w.calls n ≡ some c) (not_done : (e : TaskEvent J) → c ≢ written e)
      (good : IsAt n d) where
    replaced : (i : ℕ) (x : Call J) → get_elem? (put n d w.calls) i ≡ some x → IsAt i x
    replaced i x q = elim (Bool-cases (i == n)) [
      | inl e ↦
          let same : i ≡ n = (==_iff i n).0 e in
          let at_n = put-here n d c w.calls here in
          subst (IsAt i)
            (some-injective _ _ (sym at_n ∙ ap (get_elem? (put n d w.calls)) (sym same) ∙ q))
            (subst (λ k. IsAt k d) (sym same) good)
      | inr e ↦ h.placed i x (sym (put-elsewhere n i d w.calls (λ s. cc ((==_iff i n).1 s, e))) ∙ q)
    ]

    still_known : All (IsWritten (put n d w.calls)) w.rows
    still_known =
        All-mono (IsWritten w.calls) _ w.rows
          (λ e k. (
            k.0,
            put-elsewhere n k.0 d w.calls (λ s.
                  not_done e (some-injective _ _ (sym here ∙ ap (get_elem? w.calls) (sym s) ∙ k.1)))
                ∙ k.1,
          ))
          h.known

    advanced :
        (st : EmitterState)
        → st.seq ≡ w.state.seq
        → Numbered (record w { state = st; calls = put n d w.calls })
    advanced st q = record {
      next = q ∙ h.next ∙ ap pos (sym (length-put n d w.calls));
      placed = replaced;
      known = still_known;
      apart = h.apart;
    }

  other_number :
      (w : World J) (h : Numbered w) (n : ℕ) (e f : TaskEvent J)
      → get_elem? w.calls n ≡ some (ready e)
      → IsWritten w.calls f
      → f.seq ≢ e.seq
  other_number w h n e f here (i, k) q =
      let p : pos i ≡ pos n =
        sym (h.placed i (written f) k).0 ∙ q ∙ (h.placed n (ready e) here).0 in
      let same : i ≡ n = cc p in let both = sym k ∙ ap (get_elem? w.calls) same ∙ here in cc both

  resumed :
      (w : World J) (n : ℕ) (answers : Bool) (o : Option (Call J))
      → Numbered w
      → get_elem? w.calls n ≡ o
      → Numbered (resume sha256 to_json to_rfc3339 n answers o w)
  resumed w n answers none h q = h
  resumed w n answers (some (numbered seq x)) h q =
      let e = event_of sha256 to_json to_rfc3339 seq w.state x in
      advanced w h n (numbered seq x) (linked e) q (λ f p. cc p)
        (h.placed n (numbered seq x) q, refl) w.state refl
  resumed w n answers (some (linked e)) h q =
      advanced w h n (linked e) (ready e) q (λ f p. cc p) (h.placed n (linked e) q)
        (record w.state { prev_hash = some e.hash_curr }) refl
  resumed w n true (some (ready e)) h q =
      let good = h.placed n (ready e) q in
      let calls = put n (written e) w.calls in
      record {
        next = h.next ∙ ap pos (sym (length-put n (written e) w.calls));
        placed = replaced w h n (ready e) (written e) q (λ f p. cc p) good;
        known =
            All-append (IsWritten calls) w.rows (e ∷ [])
              (still_known w h n (ready e) (written e) q (λ f p. cc p) good)
              ((n, put-here n (written e) (ready e) w.calls q), tt);
        apart =
            Apart-append e w.rows h.apart
              (All-mono (IsWritten w.calls) _ w.rows (λ f k. other_number w h n e f q k) h.known);
      }
  resumed w n false (some (ready e)) h q =
      advanced w h n (ready e) (failed e) q (λ f p. cc p) (h.placed n (ready e) q) w.state refl
  resumed w n answers (some (written e)) h q = h
  resumed w n answers (some (failed e)) h q = h

  next_number : (k : ℕ) → suc k ≤ i64_max → add_one_i64 (pos k) ≡ pos (suc k)
  next_number k h = ground arith

  length-resume :
      (w : World J) (n : ℕ) (answers : Bool) (o : Option (Call J))
      → length (resume sha256 to_json to_rfc3339 n answers o w).calls ≡ length w.calls
  length-resume w n answers none = refl
  length-resume w n answers (some (numbered seq x)) = length-put n _ w.calls
  length-resume w n answers (some (linked e)) = length-put n _ w.calls
  length-resume w n true (some (ready e)) = length-put n _ w.calls
  length-resume w n false (some (ready e)) = length-put n _ w.calls
  length-resume w n answers (some (written e)) = refl
  length-resume w n answers (some (failed e)) = refl

  stepped :
      (t : Step J) (w : World J)
      → Numbered w
      → suc (length w.calls) ≤ i64_max
      → let w' = take_step sha256 to_json to_rfc3339 t w in
        Numbered w' × (length w'.calls ≤ suc (length w.calls))
  stepped (begin x) w h le =
      let more = length-append w.calls (numbered w.state.seq x ∷ []) in
      let one_more : length (w.calls ++ numbered w.state.seq x ∷ []) ≡ suc (length w.calls) =
        omega (arith, more) in
      (
        record {
          next = ap add_one_i64 h.next ∙ next_number (length w.calls) le ∙ ap pos (sym one_more);
          placed = λ i c q. elim (found_in w.calls (numbered w.state.seq x) i c q) [
            | inl k ↦ h.placed i c k
            | inr (e, p) ↦ subst (IsAt i) p (h.next ∙ ap pos (sym e))
          ];
          known =
              All-mono (IsWritten w.calls) _ w.rows (λ e k. (k.0, in_front w.calls _ k.0 _ k.1))
                h.known;
          apart = h.apart;
        },
        omega (arith, one_more),
      )
  stepped (go_on n answers) w h le = (
    resumed w n answers (get_elem? w.calls n) h refl,
    omega (arith, length-resume w n answers (get_elem? w.calls n)),
  )

  kept :
      (ts : List (Step J)) (w : World J)
      → Numbered w
      → length w.calls + length ts ≤ i64_max
      → Numbered (take_steps sha256 to_json to_rfc3339 ts w)
  unfolding take_steps
  kept [] w h le = h
  kept (t ∷ ts) w h le =
      let (next, grown) = stepped t w h (omega arith) in
      kept ts (take_step sha256 to_json to_rfc3339 t w) next (omega (arith, grown))

  -- A call whose steps come one after another does what `emit` does.
  emit-steps :
      (x : Emission J) (st : EmitterState) (rows : List (TaskEvent J)) (now : DateTime)
      → let w =
          take_steps sha256 to_json to_rfc3339
            (begin x ∷ go_on 0 true ∷ go_on 0 true ∷ go_on 0 true ∷ [])
            (record { state = st; calls = []; rows = rows }) in
        let (st', s') =
          (emit sha256 to_json to_rfc3339 x
            (st, record { rows = rows; now = now; faults = [] })).1 in
        (w.state ≡ st') × (w.rows ≡ s'.rows)
  unfolding take_steps emit
  emit-steps x st rows now = (refl, refl)

  -- However the steps of the calls of one emitter come in between each other, and whichever writes fail: as long as
  -- they are not more than `i64` can number, no two events are written with one number, and each event has the
  -- hash of its own number, kind, payload, time and previous hash, and as its number the place of its call, in the
  -- order in which the calls took theirs. Which event the previous hash is of is not said.
  pub take_steps-Apart :
      (ts : List (Step J))
      → length ts ≤ i64_max
      → let w = take_steps sha256 to_json to_rfc3339 ts idle in
        Apart w.rows
        × All
            (λ e. IsOwn e × (i : ℕ) × (e.seq ≡ pos i) × (get_elem? w.calls i ≡ some (written e)))
            w.rows
  take_steps-Apart ts le =
      let h =
        kept ts idle (record { next = refl; placed = λ i c q. absurd cc; known = tt; apart = tt })
          (omega (arith, le)) in
      (
        h.apart,
        All-mono _ _ _
            (λ e k. let at_k = h.placed k.0 (written e) k.1 in (at_k.1, k.0, at_k.0, k.1)) h.known,
      )
