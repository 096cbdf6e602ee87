-- ===== src/Models/Revocation.antt =====
-- That a revoked API key stays revoked, whatever statements follow (axontask-shared/src/models/api_key.rs).
use mathlib.Core.Path.{subst}
use mathlib.Core.Option.{some-injective}
use axon_task.Prelude.{
  ℕ, ◌+◌, ◌≡◌, ◌≢◌, refl, sym, ap, ◌∙◌, inl, inr, Text, text_eq, Bool, true, not, ◌&&◌, ◌||◌, none,
  some, List, [], ◌∷◌, any, All, All-append, All-keep, ◌==◌, ==_iff, Bool-cases, not_both, ok,
  arith,
}
use axon_task.Task.{Uuid}
use axon_task.Task.Queries.{database}
use axon_task.Db.{DateTime, Store, pure, try_statement}
use axon_task.Db.Laws.{try_statement-keeps, bind_final}
use axon_task.Db.Tables.{
  change-keeps, select-keeps, change_lem, update_where, All-update_where, returning_one-some,
}
use axon_task.Models.ApiKeys
use axon_task.Models.ApiKeys.{
  ApiKey, CreateApiKey, by_id, by_id_and_tenant, is_active, revoke_row, touch, hash_key,
  generate_key, new_row, insert_row, accepts,
}

-- A statement on the table, and time that passes between two of them.
pub data Operation : Type 0 where
  tick : ℕ → Operation
  create : Bool → Uuid → List ℕ → CreateApiKey → Operation
  find_by_id : Uuid → Operation
  validate : Text → Operation
  revoke : Uuid → Operation
  revoke_with_tenant : Uuid → Uuid → Operation
  delete : Uuid → Operation
  list_by_tenant : Uuid → Operation
  list_active_by_tenant : Uuid → Operation

-- An id that is drawn is new.
abbrev pub IsFresh : Uuid → Operation → Type 0
IsFresh id (create admitted new indices d) = new ≢ id
IsFresh id _ = Unit

none_not_some : {A : Type 0} {a : A} → none ≢ some a
none_not_some h = cc

not_revoked :
    (sha256 : Text → Text) (hash : Text) (now : DateTime) (key : ApiKey)
    → accepts sha256 hash now key ≡ true
    → key.revoked ≢ true
not_revoked sha256 hash now key h r = ground arith

module _ (sha256 : Text → Text) where
  unfoldable pub perform : Operation → Store ApiKey → Store ApiKey
  perform (tick n) s = record s { now = s.now + n }
  perform (create admitted id indices d) s = (ApiKeys.create sha256 admitted id indices d s).1
  perform (find_by_id id) s = (ApiKeys.find_by_id id s).1
  perform (validate key) s = (ApiKeys.validate sha256 key s).1
  perform (revoke id) s = (ApiKeys.revoke id s).1
  perform (revoke_with_tenant id tenant) s = (ApiKeys.revoke_with_tenant id tenant s).1
  perform (delete id) s = (ApiKeys.delete id s).1
  perform (list_by_tenant tenant) s = (ApiKeys.list_by_tenant tenant s).1
  perform (list_active_by_tenant tenant) s = (ApiKeys.list_active_by_tenant tenant s).1

  unfoldable pub perform_all : List Operation → Store ApiKey → Store ApiKey
  perform_all [] s = s
  perform_all (op ∷ ops) s = perform_all ops (perform op s)

  module _ (id : Uuid) where
    abbrev Off : ApiKey → Type 0
    Off key = key.id ≡ id → key.revoked ≡ true

    abbrev AllOff : List ApiKey → Type 0
    AllOff ks = All Off ks

    updated :
        (hit : ApiKey → Bool) (now : DateTime) (ks : List ApiKey)
        → AllOff ks
        → AllOff (update_where hit (revoke_row now) ks)
    updated hit now ks h = All-update_where Off hit (revoke_row now) ks (λ k e o q. refl) h

    inserted :
        (admitted : Bool) (new : Uuid) (key : Text) (d : CreateApiKey) (now : DateTime)
        (ks : List ApiKey) (a : ApiKey) (ks' : List ApiKey)
        → new ≢ id
        → AllOff ks
        → insert_row sha256 admitted new key d now ks ≡ some (a, ks')
        → AllOff ks'
    inserted admitted new key d now ks a ks' n h q =
        elim (Bool-cases (
          admitted
          && not (any (λ k. k.id == new || text_eq k.key_hash (hash_key sha256 key)) ks))) [
            | inl e ↦
                subst AllOff (ap (λ p. p.1) (some-injective _ _ (rw e at q))) (
                  All-append Off ks (new_row sha256 new key d now ∷ []) h ((λ r. absurd (n r)), tt))
            | inr e ↦ absurd (none_not_some (rw e at q))
          ]

    perform-AllOff :
        (op : Operation) (s : Store ApiKey)
        → IsFresh id op
        → All Off s.rows
        → All Off (perform op s).rows
    unfolding perform ApiKeys.create ApiKeys.find_by_id ApiKeys.validate ApiKeys.revoke
        ApiKeys.revoke_with_tenant ApiKeys.delete ApiKeys.list_by_tenant
        ApiKeys.list_active_by_tenant
    perform-AllOff (tick n) s f h = h
    perform-AllOff (create admitted new indices d) s f h =
        let insert =
          try_statement database (insert_row sha256 admitted new (generate_key indices) d) in
        subst (λ t. All Off t.rows)
          (sym
            (bind_final insert (λ api_key. pure (api_key, generate_key indices)) s (λ a t. refl)))
          (try_statement-keeps (λ now ks. AllOff ks) database
            (insert_row sha256 admitted new (generate_key indices) d) s h
            (λ a ks q. inserted admitted new (generate_key indices) d s.now s.rows a ks f h q))
    perform-AllOff (find_by_id i) s f h = select-keeps AllOff database _ s h
    perform-AllOff (validate key) s f h = change-keeps AllOff database _ _ s h (
        All-update_where Off (accepts sha256 (hash_key sha256 key) s.now) (touch s.now) s.rows
          (λ k e o q. o q) h)
    perform-AllOff (revoke i) s f h =
        change-keeps AllOff database _ _ s h (updated (by_id i) s.now s.rows h)
    perform-AllOff (revoke_with_tenant i tenant) s f h =
        change-keeps AllOff database _ _ s h (updated (by_id_and_tenant i tenant) s.now s.rows h)
    perform-AllOff (delete i) s f h =
        change-keeps AllOff database _ _ s h (All-keep Off (λ k. not (by_id i k)) s.rows h)
    perform-AllOff (list_by_tenant tenant) s f h = select-keeps AllOff database _ s h
    perform-AllOff (list_active_by_tenant tenant) s f h = select-keeps AllOff database _ s h

    perform_all-AllOff :
        (ops : List Operation) (s : Store ApiKey)
        → All (IsFresh id) ops
        → All Off s.rows
        → All Off (perform_all ops s).rows
    unfolding perform_all
    perform_all-AllOff [] s f h = h
    perform_all-AllOff (op ∷ ops) s f h =
        perform_all-AllOff ops (perform op s) f.1 (perform-AllOff op s f.0 h)

    off_now :
        (now : DateTime) (ks : List ApiKey) → AllOff (update_where (by_id id) (revoke_row now) ks)
    off_now now [] = tt
    off_now now (k ∷ ks) = elim (Bool-cases (by_id id k)) [
      | inl e ↦ rw e ((λ q. refl), off_now now ks)
      | inr e ↦ rw e ((λ q. absurd (not_both ((==_iff k.id id).1 q) e)), off_now now ks)
    ]

    -- Once `revoke` has returned for the id of a key, `validate` never gives that key again, for any text and after any
    -- statements, unless a key is created with the same id.
    pub validate-revoke :
        (s : Store ApiKey) (found : Bool) (ops : List Operation) (plaintext : Text) (key : ApiKey)
        → (ApiKeys.revoke id s).0 ≡ ok found
        → All (IsFresh id) ops
        → (ApiKeys.validate sha256 plaintext (perform_all ops (ApiKeys.revoke id s).1)).0
          ≡ ok (some key)
        → key.id ≢ id
    unfolding ApiKeys.revoke ApiKeys.validate
    validate-revoke s found ops plaintext key r f v q =
        let revoked = subst AllOff (sym (change_lem database _ _ s r).1) (off_now s.now s.rows) in
        let after = perform_all ops (ApiKeys.revoke id s).1 in
        let still = perform_all-AllOff ops (ApiKeys.revoke id s).1 f revoked in
        let given = (change_lem database _ _ after v).0 in
        let (row, hit, off, same) =
          returning_one-some Off (accepts sha256 (hash_key sha256 plaintext) after.now)
            (touch after.now) after.rows key still (sym given) in
        not_revoked sha256 (hash_key sha256 plaintext) after.now row hit
          (off (ap (λ k. k.id) same ∙ q))
