-- ===== src/Models/UserUpdates.antt =====
-- What the statement that `User::update` puts together does (axontask-shared/src/models/user.rs).
use mathlib.Core.Path.{fun_ext}
use axon_task.Prelude.{
  ◌≡◌, refl, sym, ap, ◌∙◌, Text, Bool, ◌&&◌, Option, none, some, List, [], ◌∷◌, map, if◌then◌else◌,
}
use axon_task.Task.{Uuid}
use axon_task.Task.Queries.{database}
use axon_task.Db.{DateTime, Store, try_statement}
use axon_task.Db.Tables.{update_where, returning_one}
use axon_task.Models.Updates.{
  is_some, wrap, set_clauses, bound, run, assign_given, assign_all, run-set_clauses, is_some-wrap,
  given, update_with_lem,
}
use axon_task.Models.Users.{
  User, UpdateUser, Column, email, password_hash, name, avatar_url, email_verified, Value, plain,
  nullable, flag, assign, columns, values, set_fields, by_id, are_unique, if_unique, update,
}

-- The row with the fields that are given.
abbrev pub updated : DateTime → UpdateUser → User → User
updated now d u = record u {
  email = given d.email u.email;
  password_hash = given d.password_hash u.password_hash;
  name = given d.name u.name;
  avatar_url = given d.avatar_url u.avatar_url;
  email_verified = given d.email_verified u.email_verified;
  updated_at = now;
}

-- Each column with the value bound for it.
abbrev fields : UpdateUser → List (Column × Option Value)
fields d =
    (email, wrap plain d.email)
    ∷ (password_hash, wrap plain d.password_hash)
    ∷ (name, wrap nullable d.name)
    ∷ (avatar_url, wrap nullable d.avatar_url)
    ∷ (email_verified, wrap flag d.email_verified)
    ∷ []

columns_of_fields : (d : UpdateUser) → map (λ f. (f.0, is_some f.1)) (fields d) ≡ columns d
columns_of_fields d =
    rw
      (
        is_some-wrap plain d.email,
        is_some-wrap plain d.password_hash,
        is_some-wrap nullable d.name,
        is_some-wrap nullable d.avatar_url,
        is_some-wrap flag d.email_verified,
      )
      refl

email_given :
    (o : Option Text) (u : User)
    → assign_given assign email (wrap plain o) u ≡ some (record u { email = given o u.email })
email_given none u = refl
email_given (some v) u = refl

password_hash_given :
    (o : Option Text) (u : User)
    → assign_given assign password_hash (wrap plain o) u
      ≡ some (record u { password_hash = given o u.password_hash })
password_hash_given none u = refl
password_hash_given (some v) u = refl

name_given :
    (o : Option (Option Text)) (u : User)
    → assign_given assign name (wrap nullable o) u ≡ some (record u { name = given o u.name })
name_given none u = refl
name_given (some v) u = refl

avatar_url_given :
    (o : Option (Option Text)) (u : User)
    → assign_given assign avatar_url (wrap nullable o) u
      ≡ some (record u { avatar_url = given o u.avatar_url })
avatar_url_given none u = refl
avatar_url_given (some v) u = refl

email_verified_given :
    (o : Option Bool) (u : User)
    → assign_given assign email_verified (wrap flag o) u
      ≡ some (record u { email_verified = given o u.email_verified })
email_verified_given none u = refl
email_verified_given (some v) u = refl

assigned :
    (now : DateTime) (d : UpdateUser) (u : User)
    → assign_all assign (fields d) (record u { updated_at = now }) ≡ some (updated now d u)
unfolding assign_all
assigned now d u =
    let u1 = record u { updated_at = now } in
    let u2 = record u1 { email = given d.email u.email } in
    let u3 = record u2 { password_hash = given d.password_hash u.password_hash } in
    let u4 = record u3 { name = given d.name u.name } in
    let u5 = record u4 { avatar_url = given d.avatar_url u.avatar_url } in
    rw
      (
        email_given d.email u1,
        password_hash_given d.password_hash u2,
        name_given d.name u3,
        avatar_url_given d.avatar_url u4,
        email_verified_given d.email_verified u5,
      )
      refl

set_fields_lem :
    (now : DateTime) (d : UpdateUser) (u : User) → set_fields now d u ≡ some (updated now d u)
set_fields_lem now d u =
    ap (λ cs. run assign (set_clauses 1 cs) (bound (values d)) (record u { updated_at = now }))
      (sym (columns_of_fields d))
    ∙ run-set_clauses assign (fields d) (record u { updated_at = now })
    ∙ assigned now d u

-- The statement that `User::update` puts together, column by column and value by value, is the plain one: it sets each
-- field that is given to its own value and `updated_at` to the time, in the row of the id and no other, gives that
-- row, and fails if then two rows have the same address or a text does not fit.
pub update_lem :
    (same_email : Text → Text → Bool) (fits : Bool) (id : Uuid) (d : UpdateUser) (s : Store User)
    → update same_email fits id d s
      ≡ try_statement database
          (λ now us.
            if fits && are_unique same_email (update_where (by_id id) (updated now d) us)
            then some (
              returning_one (by_id id) (updated now d) us,
              update_where (by_id id) (updated now d) us,
            )
            else none)
          s
unfolding update
update_lem same_email fits id d s =
    ap (λ effect. try_statement database effect s)
      (fun_ext (λ now. fun_ext (λ us.
        ap (if_unique same_email fits) (
          update_with_lem (by_id id) (set_fields now d) (updated now d) us
            (set_fields_lem now d)))))
