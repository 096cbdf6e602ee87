-- ===== src/Redis/StreamOrder.antt =====
-- The order of stream ids, and which cursors have a gap (axontask-shared/src/redis/gap_detection.rs).
use axon_task.Prelude.{
  ℕ, ◌-◌, ◌/◌, ◌≤◌, ◌<◌, ◌≡◌, ◌≢◌, refl, ap, ◌∙◌, inl, inr, ◌⊎◌, ◌↔◌, max, ℤ, pos, negsuc, pos_part,
  sub_ℕ, leb_ℤ, i64_max, Text, true, false, Option, none, some, List, [], ◌∷◌, All, ok, Bool-cases,
  ◌==◌, arith,
}
use axon_task.Redis.StreamId.{
  onto_first, split, unsigned, at_most_max, parse_i64, both, of_parts, parse_stream_id, sub_i64,
  difference, differ, compare_stream_ids, GapInfo, detect_gap, is_empty, estimate_missing_count,
  estimate, behind,
}

-- The parts hold no separator.
abbrev Free : ℕ → Text → Type 0
Free c s = All (λ x. x ≢ c) s

onto_first-Free :
    (c x : ℕ) (parts : List Text) → x ≢ c → All (Free c) parts → All (Free c) (onto_first x parts)
onto_first-Free c x [] n h = ((n, tt), tt)
onto_first-Free c x (p ∷ ps) n h = ((n, h.0), h.1)

split-Free : (c : ℕ) (s : Text) → All (Free c) (split c s)
unfolding split
split-Free c [] = (tt, tt)
split-Free c (x ∷ xs) = elim (Bool-cases (x == c)) [
  | inl e ↦ rw e (tt, split-Free c xs)
  | inr e ↦ rw e (onto_first-Free c x (split c xs) (ground arith) (split-Free c xs))
]

-- A number without a minus sign is not negative.
abbrev IsNat : ℤ → Type 0
IsNat (pos n) = n ≤ i64_max
IsNat (negsuc n) = ⊥

at_most_max-IsNat : (o : Option ℕ) (z : ℤ) → at_most_max o ≡ some z → IsNat z
at_most_max-IsNat o z h = ground arith

parse_i64-IsNat : (s : Text) (z : ℤ) → Free 45 s → parse_i64 s ≡ some z → IsNat z
unfolding parse_i64
parse_i64-IsNat [] z f h = cc
parse_i64-IsNat (c ∷ cs) z f h = elim (Bool-cases (c == 43)) [
  | inl e ↦ at_most_max-IsNat (unsigned cs) z (rw e at h)
  | inr e ↦ elim (Bool-cases (c == 45)) [
    | inl m ↦ absurd (f.0 (ground arith))
    | inr m ↦ at_most_max-IsNat (unsigned (c ∷ cs)) z (rw (e, m) at h)
  ]
]

both-IsNat :
    (id : Text) (o p : Option ℤ) (a b : ℤ)
    → ((z : ℤ) → o ≡ some z → IsNat z)
    → ((z : ℤ) → p ≡ some z → IsNat z)
    → both id o p ≡ ok (a, b)
    → IsNat a × IsNat b
both-IsNat id none p a b ho hp h = cc
both-IsNat id (some x) none a b ho hp h = cc
both-IsNat id (some x) (some y) a b ho hp h = (ho a (cc h), hp b (cc h))

of_parts-IsNat :
    (id : Text) (parts : List Text) (a b : ℤ)
    → All (Free 45) parts
    → of_parts id parts ≡ ok (a, b)
    → IsNat a × IsNat b
of_parts-IsNat id [] a b f h = cc
of_parts-IsNat id (p ∷ []) a b f h = cc
of_parts-IsNat id (p ∷ q ∷ []) a b f h =
    both-IsNat id (parse_i64 p) (parse_i64 q) a b (λ z. parse_i64-IsNat p z f.0)
      (λ z. parse_i64-IsNat q z f.1.0) h
of_parts-IsNat id (p ∷ q ∷ r ∷ rs) a b f h = cc

parsed-IsNat : (id : Text) (a b : ℤ) → parse_stream_id id ≡ ok (a, b) → IsNat a × IsNat b
unfolding parse_stream_id
parsed-IsNat id a b h = of_parts-IsNat id (split 45 id) a b (split-Free 45 id) h

-- The order of stream ids: by their time, and by their number within it.
abbrev pub IsBefore : ℤ × ℤ → ℤ × ℤ → Type 0
IsBefore (ts1, seq1) (ts2, seq2) =
    (pos_part ts1 < pos_part ts2) ⊎ ((ts1 ≡ ts2) × (pos_part seq1 < pos_part seq2))

sub_bounded : (a c : ℕ) → a ≤ i64_max → c ≤ i64_max → sub_i64 (pos a) (pos c) ≡ sub_ℕ a c
sub_bounded a c ha hc = ground arith

difference-IsBefore :
    (x y : ℤ × ℤ)
    → IsNat x.0 × IsNat x.1
    → IsNat y.0 × IsNat y.1
    → (leb_ℤ (pos 0) (difference x y) ≡ false) ↔ IsBefore x y
difference-IsBefore (pos a, pos b) (pos c, pos d) hx hy = (
  (λ h. ground (arith, sub_bounded a c hx.0 hy.0, sub_bounded b d hx.1 hy.1)),
  (λ h. ground (arith, sub_bounded a c hx.0 hy.0, sub_bounded b d hx.1 hy.1)),
)
difference-IsBefore (negsuc a, s) y hx hy = absurd hx.0
difference-IsBefore (pos a, negsuc b) y hx hy = absurd hx.1
difference-IsBefore (pos a, pos b) (negsuc c, t) hx hy = absurd hy.0
difference-IsBefore (pos a, pos b) (pos c, negsuc d) hx hy = absurd hy.1

not_empty : (s : Text) (x : ℤ × ℤ) → parse_stream_id s ≡ ok x → is_empty s ≡ false
unfolding parse_stream_id split
not_empty [] x h = cc
not_empty (c ∷ cs) x h = refl

module _ (cursor earliest latest : Text) (x y : ℤ × ℤ) (read_cursor : parse_stream_id cursor ≡ ok x)
    (read_earliest : parse_stream_id earliest ≡ ok y) where
  abbrev pub gap : GapInfo
  gap = record {
    client_cursor = cursor;
    earliest_available_id = earliest;
    latest_available_id = latest;
    estimated_missing_count = max ((pos_part y.0 - pos_part x.0) / 100) 1;
    compacted = true;
  }

  compared : compare_stream_ids cursor earliest ≡ ok (difference x y)
  unfolding compare_stream_ids
  compared =
      ap (λ r. differ r (parse_stream_id earliest)) read_cursor ∙ ap (differ (ok x)) read_earliest

  cast : (c a : ℕ) → c ≤ i64_max → a ≤ c → behind (pos c) (pos a) ≡ c - a
  cast c a hc le = ground arith

  behind-IsBefore :
      (u v : ℤ × ℤ)
      → IsNat u.0
      → IsNat v.0
      → IsBefore u v
      → behind v.0 u.0 ≡ pos_part v.0 - pos_part u.0
  behind-IsBefore (pos a, s) (pos c, t) hu hv (inl lt) = cast c a hv (omega arith)
  behind-IsBefore (pos a, s) (pos c, t) hu hv (inr (e, lt)) =
      cast c a hv (omega (arith, ap pos_part e))
  behind-IsBefore (negsuc a, s) v hu hv h = absurd hu
  behind-IsBefore (pos a, s) (negsuc c, t) hu hv h = absurd hv

  estimated :
      IsBefore x y
      → estimate_missing_count earliest cursor ≡ max ((pos_part y.0 - pos_part x.0) / 100) 1
  unfolding estimate_missing_count
  estimated h =
      ap (λ r. estimate r (parse_stream_id cursor)) read_earliest
      ∙ ap (estimate (ok y)) read_cursor
      ∙ ap (λ n. max (n / 100) 1)
          (behind-IsBefore x y (parsed-IsNat cursor x.0 x.1 read_cursor).0
            (parsed-IsNat earliest y.0 y.1 read_earliest).0 h)

  none-found :
      leb_ℤ (pos 0) (difference x y) ≡ true → detect_gap (earliest, latest) cursor ≡ ok none
  unfolding detect_gap
  none-found h = rw (not_empty earliest y read_earliest, compared, h) refl

  gap-found :
      leb_ℤ (pos 0) (difference x y) ≡ false
      → IsBefore x y
      → detect_gap (earliest, latest) cursor ≡ ok (some gap)
  unfolding detect_gap
  gap-found h b = rw (not_empty earliest y read_earliest, compared, h, estimated b) refl

  -- Let the cursor and the id of the first entry be well-formed. `detect_gap` reports a gap exactly if the
  -- cursor is before the first entry, by time and then by number, and then estimates a missing event for each
  -- tenth of a second between them, but at least one.
  pub detect_gap_lem :
      (IsBefore x y → detect_gap (earliest, latest) cursor ≡ ok (some gap))
      × (¬ IsBefore x y → detect_gap (earliest, latest) cursor ≡ ok none)
  detect_gap_lem =
      let (to, from) =
        difference-IsBefore x y (parsed-IsNat cursor x.0 x.1 read_cursor)
          (parsed-IsNat earliest y.0 y.1 read_earliest) in
      (
        (λ h. gap-found (from h) h),
        (λ h. none-found (elim (Bool-cases (leb_ℤ (pos 0) (difference x y))) [
          | inl e ↦ e
          | inr e ↦ absurd (h (to e))
        ])),
      )
