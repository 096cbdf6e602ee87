-- ===== src/Event/Hash.antt =====
-- The bytes that are hashed determine the event (`compute_hash` of models/task_event.rs).
use axon_task.Prelude.{
  ℕ, zero, suc, ◌*◌, ◌/◌, ◌%◌, ◌≤◌, ◌<◌, ◌≡◌, refl, sym, ap, ◌∙◌, ℤ, pos, negsuc, i64_max, Text,
  text, text_eq, eq_of_text_eq, ◌↔◌, append-cancel_left, Bool, false, Option, none, some, ◌++◌,
  length, get_elem?, ◌==◌, if◌then◌else◌, arith,
}
use mathlib.Core.Path.{subst}
use axon_task.Event.{
  EventKind, started, progress, stdout, stderr, success, error, canceled, timeout, digest, as_str,
  from_str, i64_bits, le_bytes, to_le_bytes,
}

read_back : (k : EventKind) → from_str (as_str k) ≡ some k
unfolding from_str as_str text_eq
read_back started = refl
read_back progress = refl
read_back stdout = refl
read_back stderr = refl
read_back success = refl
read_back error = refl
read_back canceled = refl
read_back timeout = refl
read_back digest = refl

from_str_sound : (s : Text) (k : EventKind) → from_str s ≡ some k → s ≡ as_str k
unfolding from_str as_str
from_str_sound s k h = ground (
  arith,
  eq_of_text_eq s (text "started"),
  eq_of_text_eq s (text "progress"),
  eq_of_text_eq s (text "stdout"),
  eq_of_text_eq s (text "stderr"),
  eq_of_text_eq s (text "success"),
  eq_of_text_eq s (text "error"),
  eq_of_text_eq s (text "canceled"),
  eq_of_text_eq s (text "timeout"),
  eq_of_text_eq s (text "digest"),
)

-- `from_str` reads back exactly what `as_str` writes.
pub from_str-as_str : (s : Text) (k : EventKind) → (from_str s ≡ some k) ↔ (s ≡ as_str k)
from_str-as_str s k = (from_str_sound s k, λ h. ap from_str h ∙ read_back k)

-- The kind at the head of a text, by its first letters: no kind's name begins another's.
is_letter : Option ℕ → ℕ → Bool
is_letter none c = false
is_letter (some x) c = x == c

head_kind : Text → EventKind
unfolding is_letter
head_kind s =
    if is_letter (get_elem? s 0) b'p'
    then progress
    else if is_letter (get_elem? s 0) b'e'
    then error
    else if is_letter (get_elem? s 0) b'c'
    then canceled
    else if is_letter (get_elem? s 0) b't'
    then timeout
    else if is_letter (get_elem? s 0) b'd'
    then digest
    else if is_letter (get_elem? s 1) b'u'
    then success
    else if is_letter (get_elem? s 2) b'a'
    then started
    else if is_letter (get_elem? s 3) b'o'
    then stdout
    else stderr

head_kind-append : (k : EventKind) (rest : Text) → head_kind (as_str k ++ rest) ≡ k
unfolding head_kind as_str
head_kind-append started rest = refl
head_kind-append progress rest = refl
head_kind-append stdout rest = refl
head_kind-append stderr rest = refl
head_kind-append success rest = refl
head_kind-append error rest = refl
head_kind-append canceled rest = refl
head_kind-append timeout rest = refl
head_kind-append digest rest = refl

pub kind_split : (j k : EventKind) (x y : Text) → as_str j ++ x ≡ as_str k ++ y → (j ≡ k) × (x ≡ y)
kind_split j k x y h =
    let same : j ≡ k = sym (head_kind-append j x) ∙ ap head_kind h ∙ head_kind-append k y in
    (same, append-cancel_left (as_str k) x y (subst (λ i. as_str i ++ x ≡ as_str k ++ y) same h))

-- `256 ^ k`, by the recursion of `le_bytes`.
abbrev span : ℕ → ℕ
span zero = 1
span (suc k) = 256 * span k

le_bytes-injective : (k a b : ℕ) → a < span k → b < span k → le_bytes k a ≡ le_bytes k b → a ≡ b
unfolding le_bytes
le_bytes-injective zero a b ha hb h = omega arith
le_bytes-injective (suc k) a b ha hb h =
    let low : a % 256 ≡ b % 256 = ground arith in
    let high =
      le_bytes-injective k (a / 256) (b / 256) (omega arith) (omega arith) (ground arith) in
    omega arith

pub length-le_bytes : (k n : ℕ) → length (le_bytes k n) ≡ k
unfolding le_bytes
length-le_bytes zero n = refl
length-le_bytes (suc k) n = ap suc (length-le_bytes k (n / 256))

abbrev pub InRange : ℤ → Type 0
InRange (pos n) = n ≤ i64_max
InRange (negsuc n) = n ≤ i64_max

pub to_le_bytes-injective :
    (a b : ℤ) → InRange a → InRange b → to_le_bytes a ≡ to_le_bytes b → a ≡ b
unfolding to_le_bytes
to_le_bytes-injective a b ha hb h =
    let bits = le_bytes-injective 8 (i64_bits a) (i64_bits b) (ground arith) (ground arith) h in
    ground arith

pub length-to_le_bytes : (z : ℤ) → length (to_le_bytes z) ≡ 8
unfolding to_le_bytes
length-to_le_bytes z = length-le_bytes 8 (i64_bits z)
