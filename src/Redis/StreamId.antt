-- ===== src/Redis/StreamId.antt =====
-- Stream ids and gaps (axontask-shared/src/redis/gap_detection.rs). What `XINFO STREAM` says of the first and
-- the last entry is an argument.
use axon_task.Prelude.{
  ℕ, zero, suc, ◌+◌, ◌-◌, ◌*◌, ◌/◌, ◌%◌, ◌^◌, max, ℤ, pos, negsuc, pos_part, neg_part, sub_ℕ, leb_ℤ,
  i64_max, Text, Bool, true, false, not, ◌&&◌, Option, none, some, List, [], ◌∷◌, leb, ◌==◌,
  if◌then◌else◌, Result, ok, err,
}

-- The parts of a text between the bytes that equal a separator.
abbrev pub onto_first : ℕ → List Text → List Text
onto_first x [] = (x ∷ []) ∷ []
onto_first x (part ∷ parts) = (x ∷ part) ∷ parts

unfoldable pub split : ℕ → Text → List Text
split separator [] = [] ∷ []
split separator (x ∷ xs) =
    let rest = split separator xs in if x == separator then [] ∷ rest else onto_first x rest

-- `str::parse::<i64>`: an optional sign, at least one digit, and no overflow.
abbrev pub is_digit : ℕ → Bool
is_digit c = leb 48 c && leb c 57

unfoldable pub digits : ℕ → Text → Option ℕ
digits acc [] = some acc
digits acc (c ∷ cs) =
    let rest = digits (acc * 10 + (c - 48)) cs in if is_digit c then rest else none

abbrev pub unsigned : Text → Option ℕ
unsigned [] = none
unsigned (c ∷ cs) = digits 0 (c ∷ cs)

abbrev pub at_most_max : Option ℕ → Option ℤ
at_most_max none = none
at_most_max (some n) = if leb n i64_max then some (pos n) else none

abbrev pub at_least_min : Option ℕ → Option ℤ
at_least_min none = none
at_least_min (some zero) = some (pos 0)
at_least_min (some (suc n)) = if leb n i64_max then some (negsuc n) else none

unfoldable pub parse_i64 : Text → Option ℤ
parse_i64 [] = none
parse_i64 (c ∷ cs) =
    if c == 43
    then at_most_max (unsigned cs)
    else if c == 45
    then at_least_min (unsigned cs)
    else at_most_max (unsigned (c ∷ cs))

pub data GapDetectionError : Type 0 where
  invalid_stream_id : Text → GapDetectionError

abbrev pub both : Text → Option ℤ → Option ℤ → Result GapDetectionError (ℤ × ℤ)
both id (some ts) (some seq) = ok (ts, seq)
both id none seq = err (invalid_stream_id id)
both id (some ts) none = err (invalid_stream_id id)

abbrev pub of_parts : Text → List Text → Result GapDetectionError (ℤ × ℤ)
of_parts id (a ∷ b ∷ []) = both id (parse_i64 a) (parse_i64 b)
of_parts id _ = err (invalid_stream_id id)

-- `-` is byte 45.
unfoldable pub parse_stream_id : Text → Result GapDetectionError (ℤ × ℤ)
parse_stream_id id = of_parts id (split 45 id)

-- Subtraction on `i64`, with wrap-around.
abbrev signed : ℕ → ℤ
signed m = if leb m i64_max then pos m else sub_ℕ m 18446744073709551616

abbrev wrap_i64 : ℤ → ℤ
wrap_i64 (pos n) = signed (n % 18446744073709551616)
wrap_i64 (negsuc n) = signed (18446744073709551615 - n % 18446744073709551616)

abbrev pub sub_i64 : ℤ → ℤ → ℤ
sub_i64 a b = wrap_i64 (sub_ℕ (pos_part a + neg_part b) (pos_part b + neg_part a))

abbrev same_ℤ : ℤ → ℤ → Bool
same_ℤ a b = leb_ℤ a b && leb_ℤ b a

abbrev pub difference : ℤ × ℤ → ℤ × ℤ → ℤ
difference (ts1, seq1) (ts2, seq2) =
    if not (same_ℤ ts1 ts2) then sub_i64 ts1 ts2 else sub_i64 seq1 seq2

abbrev pub differ :
    Result GapDetectionError (ℤ × ℤ) → Result GapDetectionError (ℤ × ℤ) → Result GapDetectionError ℤ
differ (ok a) (ok b) = ok (difference a b)
differ (ok a) (err e) = err e
differ (err e) b = err e

unfoldable pub compare_stream_ids : Text → Text → Result GapDetectionError ℤ
compare_stream_ids id1 id2 = differ (parse_stream_id id1) (parse_stream_id id2)

-- `i64::saturating_sub`
abbrev i64_min : ℤ
i64_min = negsuc i64_max

abbrev clamp : ℤ → ℤ
clamp d = if leb_ℤ d i64_min then i64_min else if leb_ℤ (pos i64_max) d then pos i64_max else d

abbrev pub saturating_sub : ℤ → ℤ → ℤ
saturating_sub a b = clamp (sub_ℕ (pos_part a + neg_part b) (pos_part b + neg_part a))

-- `as u64`
abbrev pub as_u64 : ℤ → ℕ
as_u64 (pos n) = n % 2 ^ 64
as_u64 (negsuc n) = 2 ^ 64 - (n % 2 ^ 64) - 1

abbrev pub behind : ℤ → ℤ → ℕ
behind earliest client = as_u64 (saturating_sub earliest client)

abbrev pub estimate : Result GapDetectionError (ℤ × ℤ) → Result GapDetectionError (ℤ × ℤ) → ℕ
estimate (ok a) (ok b) = max (behind a.0 b.0 / 100) 1
estimate (ok a) (err e) = 0
estimate (err e) b = 0

unfoldable pub estimate_missing_count : Text → Text → ℕ
estimate_missing_count earliest client =
    estimate (parse_stream_id earliest) (parse_stream_id client)

pub record GapInfo : Type 0 where
  pub client_cursor : Text
  pub earliest_available_id : Text
  pub latest_available_id : Text
  pub estimated_missing_count : ℕ
  pub compacted : Bool

abbrev pub is_empty : Text → Bool
is_empty [] = true
is_empty (c ∷ cs) = false

abbrev pub gap_of :
    Text → Text → Text → Result GapDetectionError ℤ → Result GapDetectionError (Option GapInfo)
gap_of cursor earliest latest (err e) = err e
gap_of cursor earliest latest (ok c) =
    if leb_ℤ (pos 0) c
    then ok none
    else ok (
        some (record {
          client_cursor = cursor;
          earliest_available_id = earliest;
          latest_available_id = latest;
          estimated_missing_count = estimate_missing_count earliest cursor;
          compacted = true;
        }))

unfoldable pub detect_gap : Text × Text → Text → Result GapDetectionError (Option GapInfo)
detect_gap (earliest, latest) cursor =
    if is_empty earliest
    then ok none
    else gap_of cursor earliest latest (compare_stream_ids cursor earliest)
