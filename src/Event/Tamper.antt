-- ===== src/Event/Tamper.antt =====
-- What `verify_chain` of models/task_event.rs protects: two logs that verify and end in one hash are the
-- same, or two different inputs of SHA-256 with one digest can be read off them.
use axon_task.Prelude.{
  ◌≡◌, ◌≢◌, refl, sym, ap, ◌∙◌, inl, inr, ◌⊎◌, text_eq, eq_of_text_eq, text_eq_of_eq, append-cancel,
  true, Option, none, some, List, [], ◌∷◌, ◌++◌, length, All, Bool-cases, not_both, arith,
}
use mathlib.Core.Option.{some-injective}
use axon_task.Event.{
  Bytes, TaskEvent, EventKind, as_str, or_empty, option_eq, preimage, compute_hash, verify_from,
}
use axon_task.Event.Hash.{InRange, kind_split, to_le_bytes-injective, length-to_le_bytes}

abbrev pub Collision : (Bytes → Bytes) → Type 0
Collision sha = (a : Bytes) × (b : Bytes) × (a ≢ b) × (sha a ≡ sha b)

-- What the schema checks of a row: a kind that the code names, and a sequence number of `i64`.
abbrev pub IsRow : {J : Type 0} → TaskEvent J → Type 0
IsRow e = ((k : EventKind) × (e.kind ≡ as_str k)) × InRange e.seq

option_eq→eq : (a b : Option Bytes) → option_eq a b ≡ true → a ≡ b
option_eq→eq none none h = refl
option_eq→eq none (some b) h = cc
option_eq→eq (some a) none h = cc
option_eq→eq (some a) (some b) h = ap some (eq_of_text_eq a b h)

module _ {J : Type 0} (sha256 : Bytes → Bytes) (to_vec : J → Option Bytes) where
  -- Two logs with the same contents, event by event; payloads are compared as they are printed.
  abbrev pub SameLog : List (TaskEvent J) → List (TaskEvent J) → Type 0
  SameLog [] [] = Unit
  SameLog [] (f ∷ fs) = ⊥
  SameLog (e ∷ es) [] = ⊥
  SameLog (e ∷ es) (f ∷ fs) =
      ((e.seq ≡ f.seq)
        × (e.kind ≡ f.kind)
        × (or_empty (to_vec e.payload) ≡ or_empty (to_vec f.payload))
        × (e.hash_prev ≡ f.hash_prev)
        × (e.hash_curr ≡ f.hash_curr))
      × SameLog es fs

  -- The hash that a log ends in, `prev` if it is empty.
  abbrev pub last_hash : Option Bytes → List (TaskEvent J) → Option Bytes
  last_hash prev [] = prev
  last_hash prev (e ∷ es) = last_hash (some e.hash_curr) es

  verified_head :
      (prev : Option Bytes) (e : TaskEvent J) (es : List (TaskEvent J))
      → verify_from sha256 to_vec prev (e ∷ es) ≡ true
      → (compute_hash sha256 to_vec prev e.seq e.kind e.payload ≡ e.hash_curr)
        × (e.hash_prev ≡ prev)
        × (verify_from sha256 to_vec (some e.hash_curr) es ≡ true)
  unfolding verify_from
  verified_head prev e es h =
      elim (Bool-cases
        (text_eq (compute_hash sha256 to_vec prev e.seq e.kind e.payload) e.hash_curr)) [
          | inl t ↦ elim (Bool-cases (option_eq e.hash_prev prev)) [
            | inl u ↦ (eq_of_text_eq _ _ t, option_eq→eq e.hash_prev prev u, rw (t, u) at h)
            | inr u ↦ cc (rw (t, u) at h)
          ]
          | inr t ↦ cc (rw t at h)
        ]

  -- Equal preimages come of equal events.
  preimage_split :
      (p q : Option Bytes) (e f : TaskEvent J)
      → length (or_empty p) ≡ length (or_empty q)
      → IsRow e
      → IsRow f
      → preimage sha256 to_vec p e.seq e.kind e.payload
        ≡ preimage sha256 to_vec q f.seq f.kind f.payload
      → (or_empty p ≡ or_empty q)
        × (e.seq ≡ f.seq)
        × (e.kind ≡ f.kind)
        × (or_empty (to_vec e.payload) ≡ or_empty (to_vec f.payload))
  preimage_split p q e f l ((j, ej), re) ((k, fk), rf) h =
      let (ep, h1) = append-cancel _ _ _ _ l h in
      let (es, h2) =
        append-cancel _ _ _ _ (length-to_le_bytes e.seq ∙ sym (length-to_le_bytes f.seq)) h1 in
      let (ek, ey) = kind_split j k _ _ (
        ap (λ x. x ++ or_empty (to_vec e.payload)) (sym ej)
        ∙ h2
        ∙ ap (λ x. x ++ or_empty (to_vec f.payload)) fk) in
      (ep, to_le_bytes-injective e.seq f.seq re rf es, ej ∙ ap as_str ek ∙ sym fk, ey)

  abbrev Alike : Option Bytes → Option Bytes → Type 0
  Alike none none = Unit
  Alike none (some b) = ⊥
  Alike (some a) none = ⊥
  Alike (some a) (some b) = length a ≡ length b

  Alike-length : (p q : Option Bytes) → Alike p q → length (or_empty p) ≡ length (or_empty q)
  Alike-length none none h = refl
  Alike-length none (some b) h = absurd h
  Alike-length (some a) none h = absurd h
  Alike-length (some a) (some b) h = h

  Alike-eq : (p q : Option Bytes) → Alike p q → or_empty p ≡ or_empty q → p ≡ q
  Alike-eq none none h e = refl
  Alike-eq none (some b) h e = absurd h
  Alike-eq (some a) none h e = absurd h
  Alike-eq (some a) (some b) h e = ap some e

  module _ (size : (x : Bytes) → length (sha256 x) ≡ 32) where
    -- One event of each log, given that the logs agree after it.
    head_agrees :
        (p q : Option Bytes) (e f : TaskEvent J) (es fs : List (TaskEvent J))
        → Alike p q
        → IsRow e
        → IsRow f
        → verify_from sha256 to_vec p (e ∷ es) ≡ true
        → verify_from sha256 to_vec q (f ∷ fs) ≡ true
        → e.hash_curr ≡ f.hash_curr
        → SameLog es fs
        → ((p ≡ q) × SameLog (e ∷ es) (f ∷ fs)) ⊎ Collision sha256
    unfolding compute_hash
    head_agrees p q e f es fs l re rf ve vf same rest =
        let (he, pe, _) = verified_head p e es ve in
        let (hf, pf, _) = verified_head q f fs vf in
        let pre_e = preimage sha256 to_vec p e.seq e.kind e.payload in
        let pre_f = preimage sha256 to_vec q f.seq f.kind f.payload in
        elim (Bool-cases (text_eq pre_e pre_f)) [
          | inl t ↦
              let (ep, es', ek, ey) =
                preimage_split p q e f (Alike-length p q l) re rf (eq_of_text_eq _ _ t) in
              let pq = Alike-eq p q l ep in inl (pq, ((es', ek, ey, pe ∙ pq ∙ sym pf, same), rest))
          | inr t ↦ inr (pre_e, pre_f, (λ d. not_both (text_eq_of_eq _ _ d) t), he ∙ same ∙ sym hf)
        ]

    same_from :
        (p q : Option Bytes) (es fs : List (TaskEvent J))
        → Alike p q
        → length es ≡ length fs
        → All IsRow es
        → All IsRow fs
        → verify_from sha256 to_vec p es ≡ true
        → verify_from sha256 to_vec q fs ≡ true
        → last_hash p es ≡ last_hash q fs
        → ((p ≡ q) × SameLog es fs) ⊎ Collision sha256
    unfolding compute_hash
    same_from p q [] [] l n re rf ve vf h = inl (h, tt)
    same_from p q [] (f ∷ fs) l n re rf ve vf h = absurd (omega arith)
    same_from p q (e ∷ es) [] l n re rf ve vf h = absurd (omega arith)
    same_from p q (e ∷ es) (f ∷ fs) l n re rf ve vf h =
        let (he, _, ve') = verified_head p e es ve in
        let (hf, _, vf') = verified_head q f fs vf in
        let sizes = ap length (sym he) ∙ size _ ∙ sym (size _) ∙ ap length hf in
        elim (same_from (some e.hash_curr) (some f.hash_curr) es fs sizes (omega arith) re.1 rf.1
          ve' vf' h) [
            | inl (same, rest) ↦
                head_agrees p q e f es fs l re.0 rf.0 ve vf (some-injective _ _ same) rest
            | inr c ↦ inr c
          ]

    -- Let the digest have 32 bytes, whatever its input. Two logs of equal length, with rows that the schema
    -- admits, that both verify as chains from no hash and end in the same hash, have the same sequence
    -- numbers, kinds, printed payloads and hashes, or else two different inputs with one digest are found.
    pub verified_logs_agree :
        (es fs : List (TaskEvent J))
        → length es ≡ length fs
        → All IsRow es
        → All IsRow fs
        → verify_from sha256 to_vec none es ≡ true
        → verify_from sha256 to_vec none fs ≡ true
        → last_hash none es ≡ last_hash none fs
        → SameLog es fs ⊎ Collision sha256
    verified_logs_agree es fs n re rf ve vf h =
        elim (same_from none none es fs tt n re rf ve vf h) [
          | inl (_, same) ↦ inl same
          | inr c ↦ inr c
        ]
