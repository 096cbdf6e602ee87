-- ===== src/Models/Updates.antt =====
-- The `UPDATE` statements that the models build field by field (`update` of axontask-shared/src/models/user.rs, webhook.rs
-- and tenant.rs): first the columns with their placeholders are written, then the values are bound in turn.
use axon_task.Prelude.{
  ℕ, zero, suc, ◌≡◌, refl, sym, ap, ◌∙◌, inl, inr, Bool, true, false, Option, none, some, List, [],
  ◌∷◌, ◌++◌, map, length, length-append, get_elem?, Bool-cases, if◌then◌else◌, arith,
}
use mathlib.Core.List.{append_assoc}
use axon_task.Db.Tables.{update_where, returning_one}

abbrev pub is_some : {A : Type 0} → Option A → Bool
is_some none = false
is_some (some a) = true

abbrev pub wrap : {A B : Type 0} → (A → B) → Option A → Option B
wrap f none = none
wrap f (some a) = some (f a)

-- `if field.is_some() { bind_count += 1; query.push_str(", column = $bind_count") }`, field after field.
unfoldable pub set_clauses : {C : Type 0} → ℕ → List (C × Bool) → List (C × ℕ)
set_clauses bind_count [] = []
set_clauses bind_count ((c, true) ∷ fields) =
    (c, suc bind_count) ∷ set_clauses (suc bind_count) fields
set_clauses bind_count ((c, false) ∷ fields) = set_clauses bind_count fields

-- `if let Some(value) = field { q = q.bind(value) }`, field after field.
unfoldable pub bound : {V : Type 0} → List (Option V) → List V
bound [] = []
bound (none ∷ values) = bound values
bound (some v ∷ values) = v ∷ bound values

module _ {C V R : Type 0} (assign : C → V → R → Option R) where
  abbrev pub assign_bound : C → Option V → R → Option R
  assign_bound c none r = none
  assign_bound c (some v) r = assign c v r

  -- What the database does with a row; `$1` is the id, and a placeholder without a value is an error.
  abbrev pub or_error : (R → Option R) → Option R → Option R
  or_error f none = none
  or_error f (some r) = f r

  unfoldable pub run : List (C × ℕ) → List V → R → Option R
  run [] values r = some r
  run ((c, zero) ∷ clauses) values r = none
  run ((c, suc zero) ∷ clauses) values r = none
  run ((c, suc (suc k)) ∷ clauses) values r =
      or_error (run clauses values) (assign_bound c (get_elem? values k) r)

  -- Each field that is given, one after another.
  abbrev pub assign_given : C → Option V → R → Option R
  assign_given c none r = some r
  assign_given c (some v) r = assign c v r

  unfoldable pub assign_all : List (C × Option V) → R → Option R
  assign_all [] r = some r
  assign_all ((c, o) ∷ fields) r = or_error (assign_all fields) (assign_given c o r)

  get_elem?-append :
      (front : List V) (v : V) (back : List V)
      → get_elem? (front ++ (v ∷ back)) (length front) ≡ some v
  get_elem?-append [] v back = refl
  get_elem?-append (x ∷ front) v back = get_elem?-append front v back

  -- Under the same error.
  or_error-eq :
      (f g : R → Option R) (o : Option R) → ((r : R) → f r ≡ g r) → or_error f o ≡ or_error g o
  or_error-eq f g none h = refl
  or_error-eq f g (some r) h = h r

  -- After so many values have been bound.
  abbrev RunsFrom : List V → List (C × Option V) → Type 0
  RunsFrom front fields =
      (r : R)
      → run (set_clauses (suc (length front)) (map (λ f. (f.0, is_some f.1)) fields))
          (front ++ bound (map (λ f. f.1) fields)) r
        ≡ assign_all fields r

  next_bound :
      (front : List V) (v : V) (fields : List (C × Option V))
      → RunsFrom (front ++ (v ∷ [])) fields
      → (r : R)
      → run
          (set_clauses (suc (suc (length front))) (map (λ f. (f.0, is_some f.1)) fields))
          (front ++ (v ∷ bound (map (λ f. f.1) fields)))
          r
        ≡ assign_all fields r
  next_bound front v fields h r =
      sym (
        ap
          (λ n.
            run (set_clauses (suc n) (map (λ f. (f.0, is_some f.1)) fields))
              (front ++ (v ∷ bound (map (λ f. f.1) fields))) r)
          (length-append front (v ∷ []) ∙ omega arith))
      ∙ ap
          (λ vs.
            run
              (set_clauses (suc (length (front ++ (v ∷ []))))
                (map (λ f. (f.0, is_some f.1)) fields))
              vs r)
          (sym (append_assoc front (v ∷ []) _))
      ∙ h r

  run_from : (fields : List (C × Option V)) (front : List V) → RunsFrom front fields
  unfolding run set_clauses bound assign_all
  run_from [] front r = refl
  run_from ((c, none) ∷ fields) front r = run_from fields front r
  run_from ((c, some v) ∷ fields) front r =
      ap
        (λ o.
          or_error
            (run (set_clauses (suc (suc (length front))) (map (λ f. (f.0, is_some f.1)) fields))
              (front ++ (v ∷ bound (map (λ f. f.1) fields))))
            (assign_bound c o r))
        (get_elem?-append front v (bound (map (λ f. f.1) fields)))
      ∙ or_error-eq _ (assign_all fields) (assign c v r)
          (next_bound front v fields (run_from fields (front ++ (v ∷ []))))

  -- The statement assigns each field that is given its own value.
  pub run-set_clauses :
      (fields : List (C × Option V)) (r : R)
      → run (set_clauses 1 (map (λ f. (f.0, is_some f.1)) fields)) (bound (map (λ f. f.1) fields)) r
        ≡ assign_all fields r
  run-set_clauses fields r = run_from fields [] r

pub is_some-wrap : {A B : Type 0} (f : A → B) (o : Option A) → is_some (wrap f o) ≡ is_some o
is_some-wrap f none = refl
is_some-wrap f (some a) = refl

-- A field that is given, or the old one.
abbrev pub given : {A : Type 0} → Option A → A → A
given none old = old
given (some new) old = new

-- `UPDATE … WHERE … RETURNING …` on rows of which one at most passes the test; an error in a row stops it.
module _ {R : Type 0} where
  abbrev pub put : Option R → Option (Option R × List R) → Option (Option R × List R)
  put none rest = none
  put (some r) none = none
  put (some r) (some (a, rs)) = some (some r, r ∷ rs)

  abbrev pub keep_row : R → Option (Option R × List R) → Option (Option R × List R)
  keep_row r none = none
  keep_row r (some (a, rs)) = some (a, r ∷ rs)

  unfoldable pub update_with : (R → Bool) → (R → Option R) → List R → Option (Option R × List R)
  update_with hit f [] = some (none, [])
  update_with hit f (r ∷ rs) =
      let rest = update_with hit f rs in if hit r then put (f r) rest else keep_row r rest

  pub update_with_lem :
      (hit : R → Bool) (f : R → Option R) (g : R → R) (rs : List R)
      → ((r : R) → f r ≡ some (g r))
      → update_with hit f rs ≡ some (returning_one hit g rs, update_where hit g rs)
  unfolding update_with
  update_with_lem hit f g [] h = refl
  update_with_lem hit f g (r ∷ rs) h = elim (Bool-cases (hit r)) [
    | inl e ↦ rw (e, h r, update_with_lem hit f g rs h) refl
    | inr e ↦ rw (e, update_with_lem hit f g rs h) refl
  ]
