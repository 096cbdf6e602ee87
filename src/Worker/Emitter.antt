-- ===== src/Worker/Emitter.antt =====
-- The event emitter of a worker (axontask-worker/src/events.rs). One emitter serves all tasks of the worker.
-- SHA-256, the JSON printer and the printer of times are parameters. `XADD` appends to one list, in which the
-- stream of a task is the events of that task. The stream id that Redis
-- answers with is left out. One call of `emit` runs after another here; calls that overlap are in
-- Overlap.antt. A JSON value is always printed, so that neither the hash nor the
-- fields of an event fail.
use axon_task.Prelude.{ℤ, pos, add_one_i64, Text, Option, none, some, List, [], ◌∷◌, ◌++◌, Result}
use axon_task.Task.{Uuid, DateTime}
use axon_task.Db.{Store, statement}
use axon_task.Event.{Bytes, TaskEvent, to_le_bytes, or_empty}

pub record EmitterState : Type 0 where
  pub seq : ℤ  -- AtomicI64
  pub prev_hash : Option Bytes

abbrev pub new : EmitterState
new = record { seq = pos 0; prev_hash = none }

pub data EmitError : Type 0 where
  redis : EmitError

-- The arguments of `emit`, and the time that it reads.
pub record Emission (J : Type 0) : Type 0 where
  pub task_id : Uuid
  pub kind : Text
  pub payload : J
  pub ts : DateTime

module _ {J : Type 0} (sha256 : Bytes → Bytes) (to_json : J → Text)
    (to_rfc3339 : DateTime → Text) where
  unfoldable pub compute_hash : ℤ → Text → J → DateTime → Option Bytes → Bytes
  compute_hash seq kind payload ts prev =
      sha256 (to_le_bytes seq ++ (kind ++ (to_json payload ++ (to_rfc3339 ts ++ or_empty prev))))

  abbrev pub task_event : EmitterState → Emission J → TaskEvent J
  task_event st x = record {
    task_id = x.task_id;
    seq = st.seq;
    ts = x.ts;
    kind = x.kind;
    payload = x.payload;
    hash_prev = st.prev_hash;
    hash_curr = compute_hash st.seq x.kind x.payload x.ts st.prev_hash;
  }

  -- The number is taken and the hash is set before the write, which may fail.
  unfoldable pub emit :
      Emission J
      → EmitterState × Store (TaskEvent J)
      → Result EmitError (Unit {0}) × (EmitterState × Store (TaskEvent J))
  emit x (st, s) =
      let e = task_event st x in
      let (r, s') = statement redis (λ now es. (tt, es ++ e ∷ [])) s in
      (r, (record { seq = add_one_i64 st.seq; prev_hash = some e.hash_curr }, s'))

  unfoldable pub emit_all :
      List (Emission J) → EmitterState × Store (TaskEvent J) → EmitterState × Store (TaskEvent J)
  emit_all [] p = p
  emit_all (x ∷ xs) p = emit_all xs (emit x p).1
