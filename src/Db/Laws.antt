-- ===== src/Db/Laws.antt =====
-- What a statement leaves behind, whether it runs or fails (`Db.antt`).
use mathlib.Core.Path.{subst}
use mathlib.Core.Option.{some-injective}
use axon_task.Prelude.{
  ◌≡◌, refl, ap, ◌∙◌, Bool, true, false, Option, none, some, List, [], ◌∷◌, Result, ok, err,
}
use axon_task.Prelude.Results.{ok_injective}
use axon_task.Db.{DateTime, Store, Query, ◌>>=◌, map_err, commit, attempt, try_statement, statement}

module _ {R : Type 0} where
  -- A property of the table that a statement's effect has, and the table before, holds afterwards
  -- whether the statement runs or fails.
  module _ {E A : Type 0} (P : DateTime → List R → Type 0) (e : E) where
    commit-keeps :
        (r : Option (A × List R)) (s : Store R)
        → P s.now s.rows
        → ((a : A) (ts : List R) → r ≡ some (a, ts) → P s.now ts)
        → P (commit e r s).1.now (commit e r s).1.rows
    commit-keeps none s h k = h
    commit-keeps (some (a, ts)) s h k = k a ts refl

    attempt-keeps :
        (f : List R → Option (A × List R)) (faults : List Bool) (s : Store R)
        → P s.now s.rows
        → ((a : A) (ts : List R) → f s.rows ≡ some (a, ts) → P s.now ts)
        → P (attempt e f faults s).1.now (attempt e f faults s).1.rows
    attempt-keeps f [] s h k = commit-keeps (f s.rows) s h k
    attempt-keeps f (true ∷ rest) s h k = h
    attempt-keeps f (false ∷ rest) s h k = commit-keeps (f s.rows) (record s { faults = rest }) h k

    pub try_statement-keeps :
        (f : DateTime → List R → Option (A × List R)) (s : Store R)
        → P s.now s.rows
        → ((a : A) (ts : List R) → f s.now s.rows ≡ some (a, ts) → P s.now ts)
        → P (try_statement e f s).1.now (try_statement e f s).1.rows
    try_statement-keeps f s h k = attempt-keeps (f s.now) s.faults s h k

    pub statement-keeps :
        (f : DateTime → List R → A × List R) (s : Store R)
        → P s.now s.rows
        → P s.now (f s.now s.rows).1
        → P (statement e f s).1.now (statement e f s).1.rows
    statement-keeps f s h k =
        try_statement-keeps (λ now ts. some (f now ts)) s h
          (λ a ts q. subst (P s.now) (ap (λ p. p.1) (some-injective _ _ q)) k)

  -- What follows a statement in the code and only looks at its result leaves the store as it is.
  bind_step :
      {E A B : Type 0} (k : A → Query R E B) (p : Result E A × Store R)
      → ((a : A) (s : Store R) → (k a s).1 ≡ s)
      → (let (r, s) = p in
          let q : Result E B × Store R = elim r [ ok a ↦ k a s | err e ↦ (err e, s) ] in q.1)
        ≡ p.1
  bind_step k (ok a, s) h = h a s
  bind_step k (err e, s) h = refl

  pub bind_final :
      {E A B : Type 0} (m : Query R E A) (k : A → Query R E B) (s : Store R)
      → ((a : A) (s' : Store R) → (k a s').1 ≡ s')
      → ((m >>= k) s).1 ≡ (m s).1
  bind_final m k s h = bind_step k (m s) h

  -- What a statement that succeeded has returned and done.
  module _ {E A : Type 0} (e : E) (f : DateTime → List R → A × List R) where
    attempt-eq-ok :
        (now : DateTime) (faults : List Bool) (s : Store R) {a : A}
        → (attempt e (λ ts. some (f now ts)) faults s).0 ≡ ok a
        → (a ≡ (f now s.rows).0)
          × ((attempt e (λ ts. some (f now ts)) faults s).1.rows ≡ (f now s.rows).1)
    attempt-eq-ok now [] s h = (cc, refl)
    attempt-eq-ok now (true ∷ rest) s h = cc
    attempt-eq-ok now (false ∷ rest) s h = (cc, refl)

    pub statement-eq-ok :
        (s : Store R) {a : A}
        → (statement e f s).0 ≡ ok a
        → (a ≡ (f s.now s.rows).0) × ((statement e f s).1.rows ≡ (f s.now s.rows).1)
    statement-eq-ok s h = attempt-eq-ok s.now s.faults s h

  -- A statement while the database is up.
  pub statement_up :
      {E A : Type 0} (e : E) (f : DateTime → List R → A × List R) (s : Store R)
      → s.faults ≡ []
      → statement e f s ≡ (ok (f s.now s.rows).0, record s { rows = (f s.now s.rows).1 })
  statement_up e f s up = ap (λ fs. attempt e (λ ts. some (f s.now ts)) fs s) up

  pub try_statement_up :
      {E A : Type 0} (e : E) (f : DateTime → List R → Option (A × List R)) (s : Store R) (a : A)
      (rs : List R)
      → s.faults ≡ []
      → f s.now s.rows ≡ some (a, rs)
      → (try_statement e f s).0 ≡ ok a
  try_statement_up e f s a rs up h =
      ap (λ fs. (attempt e (f s.now) fs s).0) up ∙ ap (λ r. (commit e r s).0) h

  map_err_step :
      {E F A : Type 0} (g : E → F) (p : Result E A × Store R)
      → (let q : Result F A × Store R = elim p.0 [
        | ok a ↦ (ok a, p.1)
        | err e ↦ (err (g e), p.1)
      ] in
          q.1)
        ≡ p.1
  map_err_step g (ok a, s) = refl
  map_err_step g (err e, s) = refl

  pub map_err_final :
      {E F A : Type 0} (g : E → F) (m : Query R E A) (s : Store R) → (map_err g m s).1 ≡ (m s).1
  map_err_final g m s = map_err_step g (m s)

  -- A step that succeeds, and what follows it.
  pub bind-ok :
      {E A B : Type 0} (m : Query R E A) (k : A → Query R E B) (s s' : Store R) (a : A)
      → m s ≡ (ok a, s')
      → (m >>= k) s ≡ k a s'
  bind-ok {E} {A} {B} m k s s' a h =
      ap
        (λ (p : Result E A × Store R).
          let q : Result E B × Store R = elim p.0 [ ok x ↦ k x p.1 | err e ↦ (err e, p.1) ] in q)
        h

  pub bind-err :
      {E A B : Type 0} (m : Query R E A) (k : A → Query R E B) (s s' : Store R) (e : E)
      → m s ≡ (err e, s')
      → (m >>= k) s ≡ (err e, s')
  bind-err {E} {A} {B} m k s s' e h =
      ap
        (λ (p : Result E A × Store R).
          let q : Result E B × Store R = elim p.0 [ ok x ↦ k x p.1 | err x ↦ (err x, p.1) ] in q)
        h

  pub map_err-ok :
      {E F A : Type 0} (g : E → F) (m : Query R E A) (s s' : Store R) (a : A)
      → m s ≡ (ok a, s')
      → map_err g m s ≡ (ok a, s')
  map_err-ok {E} {F} {A} g m s s' a h =
      ap
        (λ (p : Result E A × Store R).
          let q : Result F A × Store R = elim p.0 [
            | ok x ↦ (ok x, p.1)
            | err e ↦ (err (g e), p.1)
          ] in
          q)
        h

-- What a statement that a constraint may stop has done, when it succeeded and when it failed.
module _ {R E A : Type 0} (e : E) where
  commit-ok :
      (r : Option (A × List R)) (s : Store R) (a : A)
      → (commit e r s).0 ≡ ok a
      → r ≡ some (a, (commit e r s).1.rows)
  commit-ok none s a h = absurd cc
  commit-ok (some (b, rs)) s a h = ap (λ x. some (x, rs)) (ok_injective h)

  commit-err :
      (r : Option (A × List R)) (s : Store R) (d : E)
      → (commit e r s).0 ≡ err d
      → (commit e r s).1.rows ≡ s.rows
  commit-err none s d h = refl
  commit-err (some (b, rs)) s d h = absurd cc

  attempt-ok :
      (f : List R → Option (A × List R)) (faults : List Bool) (s : Store R) (a : A)
      → (attempt e f faults s).0 ≡ ok a
      → f s.rows ≡ some (a, (attempt e f faults s).1.rows)
  attempt-ok f [] s a h = commit-ok (f s.rows) s a h
  attempt-ok f (true ∷ rest) s a h = absurd cc
  attempt-ok f (false ∷ rest) s a h = commit-ok (f s.rows) (record s { faults = rest }) a h

  attempt-err :
      (f : List R → Option (A × List R)) (faults : List Bool) (s : Store R) (d : E)
      → (attempt e f faults s).0 ≡ err d
      → (attempt e f faults s).1.rows ≡ s.rows
  attempt-err f [] s d h = commit-err (f s.rows) s d h
  attempt-err f (true ∷ rest) s d h = refl
  attempt-err f (false ∷ rest) s d h = commit-err (f s.rows) (record s { faults = rest }) d h

  pub try_statement-ok :
      (f : DateTime → List R → Option (A × List R)) (s : Store R) (a : A)
      → (try_statement e f s).0 ≡ ok a
      → f s.now s.rows ≡ some (a, (try_statement e f s).1.rows)
  try_statement-ok f s a h = attempt-ok (f s.now) s.faults s a h

  pub try_statement-err :
      (f : DateTime → List R → Option (A × List R)) (s : Store R) (d : E)
      → (try_statement e f s).0 ≡ err d
      → (try_statement e f s).1.rows ≡ s.rows
  try_statement-err f s d h = attempt-err (f s.now) s.faults s d h
