-- ===== src/Scenarios/Events.antt =====
-- A small event log of two tasks (models/task_event.rs), over a toy digest of the right size.
use axon_task.Prelude.{
  ℕ, ◌+◌, ◌*◌, ◌≡◌, refl, ◌⊎◌, pos, text, text_eq, true, Option, none, some, List, [], ◌∷◌, length,
  arith,
}
use axon_task.Event.{
  Bytes, TaskEvent, AppendEvent, started, success, as_str, le_bytes, to_le_bytes, compute_hash,
  verify_from,
}
use axon_task.Event.Hash.{length-le_bytes}
use axon_task.Event.Log.{of_task, last_link, newest, insert_linked}
use axon_task.Event.Race.{Move, read, write, wait, move, moves, idle}
use axon_task.Event.Tamper.{SameLog, Collision, IsRow, verified_logs_agree}

weigh : Bytes → ℕ
weigh [] = 1
weigh (b ∷ bs) = b + 257 * weigh bs

digest : Bytes → Bytes
digest bs = le_bytes 32 (weigh bs)

digest-size : (bs : Bytes) → length (digest bs) ≡ 32
unfolding digest
digest-size bs = length-le_bytes 32 (weigh bs)

print : ℕ → Option Bytes
print n = some (n ∷ [])

abbrev begin : AppendEvent ℕ
begin = record { task_id = 1; kind = started; payload = 3 }

abbrev finish : AppendEvent ℕ
finish = record { task_id = 1; kind = success; payload = 4 }

-- Two writers read the same last event, and both write: the second is refused.
abbrev collide : List (Move ℕ)
collide = read begin ∷ write 0 ∷ read finish ∷ read finish ∷ wait 2 ∷ write 1 ∷ write 0 ∷ []

collide-length : length (of_task 1 (moves digest print collide (idle 0 [])).store.rows) ≡ 2
unfolding moves move last_link newest insert_linked
collide-length = refl

abbrev event : ℕ → TaskEvent ℕ
event n = record {
  task_id = 1;
  seq = pos 0;
  ts = n;
  kind = text "started";
  payload = 3;
  hash_prev = none;
  hash_curr = compute_hash digest print none (pos 0) (text "started") 3;
}

event-verifies : (n : ℕ) → verify_from digest print none (event n ∷ []) ≡ true
unfolding verify_from compute_hash digest weigh to_le_bytes le_bytes text_eq text print
event-verifies n = refl

event-IsRow : (n : ℕ) → IsRow (event n)
unfolding as_str
event-IsRow n = ((started, refl), omega arith)

verified_logs_agree_example : SameLog digest print (event 5 ∷ []) (event 8 ∷ []) ⊎ Collision digest
verified_logs_agree_example =
    verified_logs_agree digest print digest-size (event 5 ∷ []) (event 8 ∷ []) refl
      (event-IsRow 5, tt) (event-IsRow 8, tt) (event-verifies 5) (event-verifies 8) refl
