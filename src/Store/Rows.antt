-- ===== src/Store/Rows.antt =====
-- What `SELECT`, `UPDATE` and `DELETE` do to the rows of the table. A `WHERE` clause is a test.
use axon_task.Prelude.{ℕ, Bool, Option, List, [], ◌∷◌, map, length, head?, keep, leb, if◌then◌else◌}
use axon_task.Task.{Task}

module _ {J : Type 0} where
  abbrev pub update_rows : (Task J → Bool) → (Task J → Task J) → List (Task J) → List (Task J)
  update_rows hit f [] = []
  update_rows hit f (t ∷ ts) = (if hit t then f t else t) ∷ update_rows hit f ts

  -- `UPDATE … RETURNING`, and the same read by `fetch_optional`.
  abbrev pub returning : (Task J → Bool) → (Task J → Task J) → List (Task J) → List (Task J)
  returning hit f ts = map f (keep hit ts)

  abbrev pub returning_one : (Task J → Bool) → (Task J → Task J) → List (Task J) → Option (Task J)
  returning_one hit f ts = head? (returning hit f ts)

  abbrev pub rows_affected : (Task J → Bool) → List (Task J) → ℕ
  rows_affected hit ts = length (keep hit ts)

  -- `ORDER BY created_at ASC`: rows of one time keep the table's order.
  unfoldable pub insert_by_age : Task J → List (Task J) → List (Task J)
  insert_by_age t [] = t ∷ []
  insert_by_age t (u ∷ us) =
      if leb t.created_at u.created_at then t ∷ u ∷ us else u ∷ insert_by_age t us

  unfoldable pub oldest_first : List (Task J) → List (Task J)
  unfolding insert_by_age
  oldest_first [] = []
  oldest_first (t ∷ ts) = insert_by_age t (oldest_first ts)
