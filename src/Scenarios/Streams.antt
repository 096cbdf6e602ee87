-- ===== src/Scenarios/Streams.antt =====
-- Two stream ids (axontask-shared/src/redis/gap_detection.rs).
use axon_task.Prelude.{◌≡◌, refl, pos, Text, text, none, some, [], ok}
use axon_task.Redis.StreamId.{parse_stream_id, parse_i64, split, digits, detect_gap}
use axon_task.Redis.StreamOrder.{IsBefore, gap, detect_gap_lem}

-- "9-2", and "12-0" after it.
abbrev cursor : Text
cursor = text "9-2"

abbrev earliest : Text
earliest = text "12-0"

cursor_parsed : parse_stream_id cursor ≡ ok (pos 9, pos 2)
unfolding parse_stream_id parse_i64 split digits text
cursor_parsed = refl

earliest_parsed : parse_stream_id earliest ≡ ok (pos 12, pos 0)
unfolding parse_stream_id parse_i64 split digits text
earliest_parsed = refl

detect_gap_lem_example :
    (IsBefore (pos 9, pos 2) (pos 12, pos 0)
      → detect_gap (earliest, []) cursor
        ≡ ok (
            some (
              gap cursor earliest [] (pos 9, pos 2) (pos 12, pos 0) cursor_parsed earliest_parsed)))
    × (¬ IsBefore (pos 9, pos 2) (pos 12, pos 0) → detect_gap (earliest, []) cursor ≡ ok none)
detect_gap_lem_example =
    detect_gap_lem cursor earliest [] (pos 9, pos 2) (pos 12, pos 0) cursor_parsed earliest_parsed
