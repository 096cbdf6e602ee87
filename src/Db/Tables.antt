-- ===== src/Db/Tables.antt =====
-- What statements do to the rows of any table. A `WHERE` clause is a test.
use mathlib.Core.Option.{some-injective}
use axon_task.Prelude.{
  ℕ, ◌≡◌, refl, ap, inl, inr, Bool, true, false, not, Option, some, List, [], ◌∷◌, keep, map, head?,
  length, ltb, leb, All, Bool-cases, ok, if◌then◌else◌,
}
use axon_task.Db.{DateTime, Store, Query, statement}
use axon_task.Db.Laws.{statement-keeps, statement-eq-ok}

module _ {R : Type 0} where
  abbrev pub update_where : (R → Bool) → (R → R) → List R → List R
  update_where hit f [] = []
  update_where hit f (r ∷ rs) = (if hit r then f r else r) ∷ update_where hit f rs

  -- `UPDATE … RETURNING …`, read by `fetch_optional`.
  abbrev pub returning_one : (R → Bool) → (R → R) → List R → Option R
  returning_one hit f rs = head? (map f (keep hit rs))

  abbrev pub delete_where : (R → Bool) → List R → List R
  delete_where hit rs = keep (λ r. not (hit r)) rs

  -- `rows_affected() > 0`
  abbrev pub is_affected : (R → Bool) → List R → Bool
  is_affected hit rs = ltb 0 (length (keep hit rs))

  -- `ORDER BY … DESC`
  abbrev pub insert_by_key : (R → ℕ) → R → List R → List R
  insert_by_key key r [] = r ∷ []
  insert_by_key key r (s ∷ ss) =
      if leb (key s) (key r) then r ∷ s ∷ ss else s ∷ insert_by_key key r ss

  abbrev pub descending : (R → ℕ) → List R → List R
  descending key [] = []
  descending key (r ∷ rs) = insert_by_key key r (descending key rs)

  pub All-update_where :
      (P : R → Type 0) (hit : R → Bool) (f : R → R) (rs : List R)
      → ((r : R) → hit r ≡ true → P r → P (f r))
      → All P rs
      → All P (update_where hit f rs)
  All-update_where P hit f [] k h = tt
  All-update_where P hit f (r ∷ rs) k h = elim (Bool-cases (hit r)) [
    | inl e ↦ rw e (k r e h.0, All-update_where P hit f rs k h.1)
    | inr e ↦ rw e (h.0, All-update_where P hit f rs k h.1)
  ]

  -- A row that `UPDATE … RETURNING` gives.
  pub returning_one-some :
      (P : R → Type 0) (hit : R → Bool) (f : R → R) (rs : List R) (a : R)
      → All P rs
      → returning_one hit f rs ≡ some a
      → (r : R) × (hit r ≡ true) × P r × (f r ≡ a)
  returning_one-some P hit f [] a h e = absurd cc
  returning_one-some P hit f (r ∷ rs) a h e = elim (Bool-cases (hit r)) [
    | inl y ↦ (r, y, h.0, some-injective _ _ (rw y at e))
    | inr y ↦ returning_one-some P hit f rs a h.1 (rw y at e)
  ]

-- A statement that only reads, and one that answers and changes the rows.
module _ {R E A : Type 0} where
  unfoldable pub select : E → (DateTime → List R → A) → Query R E A
  select e answer = statement e (λ now rs. (answer now rs, rs))

  unfoldable pub change : E → (DateTime → List R → A) → (DateTime → List R → List R) → Query R E A
  change e answer effect = statement e (λ now rs. (answer now rs, effect now rs))

  pub select-keeps :
      (P : List R → Type 0) (e : E) (answer : DateTime → List R → A) (s : Store R)
      → P s.rows
      → P (select e answer s).1.rows
  unfolding select
  select-keeps P e answer s h =
      statement-keeps (λ now rs. P rs) e (λ now rs. (answer now rs, rs)) s h h

  pub change-keeps :
      (P : List R → Type 0) (e : E) (answer : DateTime → List R → A)
      (effect : DateTime → List R → List R) (s : Store R)
      → P s.rows
      → P (effect s.now s.rows)
      → P (change e answer effect s).1.rows
  unfolding change
  change-keeps P e answer effect s h k =
      statement-keeps (λ now rs. P rs) e (λ now rs. (answer now rs, effect now rs)) s h k

  pub select_lem :
      (e : E) (answer : DateTime → List R → A) (s : Store R) {a : A}
      → (select e answer s).0 ≡ ok a
      → a ≡ answer s.now s.rows
  unfolding select
  select_lem e answer s h = (statement-eq-ok e (λ now rs. (answer now rs, rs)) s h).0

  pub change_lem :
      (e : E) (answer : DateTime → List R → A) (effect : DateTime → List R → List R) (s : Store R)
      {a : A}
      → (change e answer effect s).0 ≡ ok a
      → (a ≡ answer s.now s.rows) × ((change e answer effect s).1.rows ≡ effect s.now s.rows)
  unfolding change
  change_lem e answer effect s h = statement-eq-ok e (λ now rs. (answer now rs, effect now rs)) s h

-- Two statements that tell the same rows apart no further than a query does: it answers the same after either.
module _ {R E B : Type 0} (e : E) (view : DateTime → List R → B) where
  same_view :
      (now : DateTime) (faults : List Bool) (rs rs' : List R)
      → view now rs ≡ view now rs'
      → (select e view (record { rows = rs; now = now; faults = faults })).0
        ≡ (select e view (record { rows = rs'; now = now; faults = faults })).0
  unfolding select
  same_view now [] rs rs' h = ap ok h
  same_view now (true ∷ rest) rs rs' h = refl
  same_view now (false ∷ rest) rs rs' h = ap ok h

  change_views :
      {A : Type 0} (answer : DateTime → List R → A) (f g : DateTime → List R → List R)
      (now : DateTime) (rs : List R) (faults : List Bool)
      → view now (f now rs) ≡ view now (g now rs)
      → (let s : Store R = record { rows = rs; now = now; faults = faults } in
          ((change e answer f s).0 ≡ (change e answer g s).0)
          × ((select e view (change e answer f s).1).0 ≡ (select e view (change e answer g s).1).0))
  unfolding change
  change_views answer f g now rs [] h = (refl, same_view now [] (f now rs) (g now rs) h)
  change_views answer f g now rs (true ∷ rest) h = (refl, refl)
  change_views answer f g now rs (false ∷ rest) h =
      (refl, same_view now rest (f now rs) (g now rs) h)

  pub select-change :
      {A : Type 0} (answer : DateTime → List R → A) (f g : DateTime → List R → List R) (s : Store R)
      → view s.now (f s.now s.rows) ≡ view s.now (g s.now s.rows)
      → ((change e answer f s).0 ≡ (change e answer g s).0)
        × ((select e view (change e answer f s).1).0 ≡ (select e view (change e answer g s).1).0)
  select-change answer f g s h = change_views answer f g s.now s.rows s.faults h
