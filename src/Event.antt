-- ===== src/Event.antt =====
-- The event log of a task (axontask-shared/src/models/task_event.rs): kinds, events, the hash that links
-- them, and the statements on `task_events`. SHA-256 and the JSON printer are parameters; `payload` is a
-- JSON value of any type `J`.
pub mod Hash
pub mod Log
pub mod Chain
pub mod Appends
pub mod Race
pub mod Tamper
use axon_task.Prelude.{
  ℕ, zero, suc, ◌-◌, ◌/◌, ◌%◌, ℤ, pos, negsuc, leb_ℤ, add_one_i64, Text, text, text_eq, Bool, true,
  false, not, ◌&&◌, ◌||◌, Option, none, some, List, [], ◌∷◌, ◌++◌, keep, any, length, ◌==◌,
  if◌then◌else◌,
}
use axon_task.Db.{DateTime, Query, ◌>>=◌, pure, try_statement, statement}
use axon_task.Task.{Uuid}
use axon_task.Task.Queries.{SqlError, database}

abbrev pub Bytes : Type 0
Bytes = List ℕ

pub data EventKind : Type 0 where
  started progress stdout stderr success error canceled timeout digest : EventKind

unfoldable pub as_str : EventKind → Text
unfolding text
as_str started = text "started"
as_str progress = text "progress"
as_str stdout = text "stdout"
as_str stderr = text "stderr"
as_str success = text "success"
as_str error = text "error"
as_str canceled = text "canceled"
as_str timeout = text "timeout"
as_str digest = text "digest"

unfoldable pub from_str : Text → Option EventKind
from_str s =
    if text_eq s (text "started")
    then some started
    else if text_eq s (text "progress")
    then some progress
    else if text_eq s (text "stdout")
    then some stdout
    else if text_eq s (text "stderr")
    then some stderr
    else if text_eq s (text "success")
    then some success
    else if text_eq s (text "error")
    then some error
    else if text_eq s (text "canceled")
    then some canceled
    else if text_eq s (text "timeout")
    then some timeout
    else if text_eq s (text "digest")
    then some digest
    else none

pub record TaskEvent (J : Type 0) : Type 0 where
  pub task_id : Uuid
  pub seq : ℤ  -- i64
  pub ts : DateTime
  pub kind : Text
  pub payload : J
  pub hash_prev : Option Bytes
  pub hash_curr : Bytes

pub record AppendEvent (J : Type 0) : Type 0 where
  pub task_id : Uuid
  pub kind : EventKind
  pub payload : J

-- `i64::to_le_bytes`: eight bytes, the lowest first, of the two's complement.
abbrev pub i64_bits : ℤ → ℕ
i64_bits (pos n) = n
i64_bits (negsuc n) = 18446744073709551615 - n

unfoldable pub le_bytes : ℕ → ℕ → Bytes
le_bytes zero n = []
le_bytes (suc k) n = (n % 256) ∷ le_bytes k (n / 256)

unfoldable pub to_le_bytes : ℤ → Bytes
unfolding le_bytes
to_le_bytes z = le_bytes 8 (i64_bits z)

abbrev pub or_empty : Option Bytes → Bytes
or_empty none = []
or_empty (some b) = b

abbrev pub option_eq : Option Bytes → Option Bytes → Bool
option_eq none none = true
option_eq none (some b) = false
option_eq (some a) none = false
option_eq (some a) (some b) = text_eq a b

-- `sha256` is the digest of all that the hasher was fed; `to_vec` is `serde_json::to_vec`.
module _ {J : Type 0} (sha256 : Bytes → Bytes) (to_vec : J → Option Bytes) where
  abbrev pub preimage : Option Bytes → ℤ → Text → J → Bytes
  preimage prev seq kind payload =
      or_empty prev ++ (to_le_bytes seq ++ (kind ++ or_empty (to_vec payload)))

  unfoldable pub compute_hash : Option Bytes → ℤ → Text → J → Bytes
  compute_hash prev seq kind payload = sha256 (preimage prev seq kind payload)

  -- The loop of `verify_chain`, over the hash of the event before.
  unfoldable pub verify_from : Option Bytes → List (TaskEvent J) → Bool
  verify_from prev [] = true
  verify_from prev (e ∷ es) =
      let rest = verify_from (some e.hash_curr) es in
      if not (text_eq (compute_hash prev e.seq e.kind e.payload) e.hash_curr)
      then false
      else if not (option_eq e.hash_prev prev)
      then false
      else rest
