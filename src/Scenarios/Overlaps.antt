-- ===== src/Scenarios/Overlaps.antt =====
-- Two tasks of a worker whose calls of `emit` overlap (axontask-worker/src/events.rs).
use axon_task.Prelude.{
  ℕ, ◌≡◌, refl, ℤ, pos, Option, Text, text, true, none, some, List, [], ◌∷◌, map, All, get_elem?,
  arith,
}
use axon_task.Event.{Bytes}
use axon_task.Worker.Emitter.{Emission}
use axon_task.Worker.Overlap.{Step, begin, go_on, written, take_steps, idle}
use axon_task.Worker.Numbers.{Apart, IsOwn, take_steps-Apart}

abbrev emission : ℕ → Emission ℕ
emission id = record { task_id = id; kind = text "started"; payload = 3; ts = 7 }

abbrev bytes : Bytes → Bytes
bytes bs = bs

abbrev print : ℕ → Text
print n = n ∷ []

-- Both look at the previous hash before either has set it.
abbrev both : List (Step ℕ)
both =
    begin (emission 1)
    ∷ begin (emission 2)
    ∷ go_on 0 true
    ∷ go_on 1 true
    ∷ go_on 0 true
    ∷ go_on 1 true
    ∷ go_on 1 true
    ∷ go_on 0 true
    ∷ []

-- The chain forks, and the second event is written first.
forked :
    map {B = ℤ × Option Bytes}
      (λ e. (e.seq, e.hash_prev))
      (take_steps bytes print print both idle).rows
    ≡ (pos 1, none) ∷ (pos 0, none) ∷ []
unfolding take_steps
forked = refl

take_steps-Apart_example :
    let w = take_steps bytes print print both idle in
    Apart bytes print print w.rows
    × All
        (λ e.
          IsOwn bytes print print e
          × (i : ℕ) × (e.seq ≡ pos i)
          × (get_elem? w.calls i ≡ some (written e)))
        w.rows
take_steps-Apart_example = take_steps-Apart bytes print print both (omega arith)
