-- ===== src/Db.antt =====
-- A table of the database, and a statement on it as the code sees one: it runs whole or it fails with
-- a database error and changes nothing. Which of the coming statements fail is a list in the store.
pub mod Laws
pub mod Tables
use axon_task.Prelude.{ℕ, Bool, true, false, Option, none, some, List, [], ◌∷◌, Result, ok, err}

-- Microseconds since the epoch, the resolution of the database.
abbrev pub DateTime : Type 0
DateTime = ℕ

pub record Store (R : Type 0) : Type 0 where
  pub rows : List R
  pub now : DateTime  -- what `NOW()` gives
  pub faults : List Bool  -- `true`: that statement will fail

abbrev pub Query : Type 0 → Type 0 → Type 0 → Type 0
Query R E A = Store R → Result E A × Store R

module _ {R E : Type 0} where
  infixl 5 ◌>>=◌ ◌>>◌
  abbrev pub ◌>>=◌ : {A B : Type 0} → Query R E A → (A → Query R E B) → Query R E B
  ◌>>=◌ m f s = let (r, s') = m s in elim r [ ok a ↦ f a s' | err e ↦ (err e, s') ]

  abbrev pub ◌>>◌ : {A B : Type 0} → Query R E A → Query R E B → Query R E B
  m >> k = m >>= λ _. k

  abbrev pub pure : {A : Type 0} → A → Query R E A
  pure a s = (ok a, s)

  abbrev pub raise : {A : Type 0} → E → Query R E A
  raise e s = (err e, s)

  abbrev pub lift : {A : Type 0} → Result E A → Query R E A
  lift r s = (r, s)

  abbrev pub map_err : {F A : Type 0} → (E → F) → Query R E A → Query R F A
  map_err g m s = let (r, s') = m s in elim r [ ok a ↦ (ok a, s') | err e ↦ (err (g e), s') ]

  -- `option.ok_or(e)?`
  abbrev pub or_raise : {A : Type 0} → E → Option A → Query R E A
  or_raise e none = raise e
  or_raise e (some a) = pure a

  abbrev commit : {A : Type 0} → E → Option (A × List R) → Store R → Result E A × Store R
  commit e none s = (err e, s)
  commit e (some (a, ts)) s = (ok a, record s { rows = ts })

  abbrev attempt :
      {A : Type 0} → E → (List R → Option (A × List R)) → List Bool → Store R → Result E A × Store R
  attempt e f [] s = commit e (f s.rows) s
  attempt e f (true ∷ rest) s = (err e, record s { faults = rest })
  attempt e f (false ∷ rest) s = commit e (f s.rows) (record s { faults = rest })

  -- One statement, given what it does to the table at a time; `none` is a violated constraint.
  abbrev pub try_statement :
      {A : Type 0} → E → (DateTime → List R → Option (A × List R)) → Query R E A
  try_statement e f s = attempt e (f s.now) s.faults s

  -- A statement that no constraint can stop.
  abbrev pub statement : {A : Type 0} → E → (DateTime → List R → A × List R) → Query R E A
  statement e f = try_statement e (λ now ts. some (f now ts))
