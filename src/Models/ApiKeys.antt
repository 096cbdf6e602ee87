-- ===== src/Models/ApiKeys.antt =====
-- API keys and their statements (axontask-shared/src/models/api_key.rs). The SHA-256 digest of a text, in hexadecimal, is
-- a parameter, as are the numbers that are drawn.
use axon_task.Prelude.{
  ℕ, Text, text, text_eq, Bool, true, false, not, ◌&&◌, ◌||◌, Option, none, some, List, [], ◌∷◌,
  ◌++◌, keep, any, head?, take, get_elem?, ltb, ◌==◌, if◌then◌else◌,
}
use axon_task.Task.{Uuid}
use axon_task.Task.Queries.{SqlError, database}
use axon_task.Db.{DateTime, Query, ◌>>=◌, pure, try_statement}
use axon_task.Db.Tables.{
  select, change, update_where, returning_one, delete_where, is_affected, descending,
}

pub record ApiKey : Type 0 where
  pub id : Uuid
  pub tenant_id : Uuid
  pub name : Text
  pub key_prefix : Text
  pub key_hash : Text
  pub scopes : List Text
  pub created_at : DateTime
  pub last_used_at : Option DateTime
  pub revoked : Bool
  pub revoked_at : Option DateTime
  pub expires_at : Option DateTime

pub record CreateApiKey : Type 0 where
  pub tenant_id : Uuid
  pub name : Text
  pub scopes : List Text
  pub expires_at : Option DateTime

unfoldable pub default_scopes : List Text
default_scopes = text "read:task" ∷ text "write:task" ∷ []

abbrev pub charset : Text
charset = text "abcdefghijklmnopqrstuvwxyzABCDEFGHIJKLMNOPQRSTUVWXYZ0123456789"

-- The characters at the 32 places that were drawn, each below the length of the set.
abbrev pub drawn : List ℕ → Text
drawn [] = []
drawn (i ∷ is) = elim (get_elem? charset i) [ none ↦ drawn is | some c ↦ c ∷ drawn is ]

unfoldable pub generate_key : List ℕ → Text
generate_key indices = text "axon_" ++ drawn indices

-- The characters of a generated key are bytes.
unfoldable pub extract_prefix : Text → Text
extract_prefix key = take 10 key

abbrev pub before : Option DateTime → DateTime → Bool
before none now = false
before (some t) now = ltb t now

unfoldable pub is_expired : DateTime → ApiKey → Bool
is_expired now key = before key.expires_at now

-- `expires_at IS NULL OR expires_at > NOW()`
abbrev pub not_ended : Option DateTime → DateTime → Bool
not_ended none now = true
not_ended (some t) now = ltb now t

unfoldable pub has_scope : Text → ApiKey → Bool
has_scope scope key = any (text_eq scope) key.scopes || any (text_eq (text "admin")) key.scopes

abbrev pub by_id : Uuid → ApiKey → Bool
by_id id key = key.id == id

abbrev pub by_id_and_tenant : Uuid → Uuid → ApiKey → Bool
by_id_and_tenant id tenant key = key.id == id && key.tenant_id == tenant

abbrev pub is_active : DateTime → ApiKey → Bool
is_active now key = not key.revoked && not_ended key.expires_at now

abbrev pub revoke_row : DateTime → ApiKey → ApiKey
revoke_row now key = record key { revoked = true; revoked_at = some now }

abbrev pub touch : DateTime → ApiKey → ApiKey
touch now key = record key { last_used_at = some now }

unfoldable pub find_by_id : Uuid → Query ApiKey SqlError (Option ApiKey)
find_by_id id = select database (λ now ks. head? (keep (by_id id) ks))

unfoldable pub revoke : Uuid → Query ApiKey SqlError Bool
revoke id =
    change database (λ now ks. is_affected (by_id id) ks)
      (λ now ks. update_where (by_id id) (revoke_row now) ks)

unfoldable pub revoke_with_tenant : Uuid → Uuid → Query ApiKey SqlError Bool
revoke_with_tenant id tenant =
    change database (λ now ks. is_affected (by_id_and_tenant id tenant) ks)
      (λ now ks. update_where (by_id_and_tenant id tenant) (revoke_row now) ks)

unfoldable pub delete : Uuid → Query ApiKey SqlError Bool
delete id =
    change database (λ now ks. is_affected (by_id id) ks) (λ now ks. delete_where (by_id id) ks)

unfoldable pub list_by_tenant : Uuid → Query ApiKey SqlError (List ApiKey)
list_by_tenant tenant =
    select database
      (λ now ks. descending (λ k. k.created_at) (keep (λ k. k.tenant_id == tenant) ks))

unfoldable pub list_active_by_tenant : Uuid → Query ApiKey SqlError (List ApiKey)
list_active_by_tenant tenant = select database (λ now ks.
    descending (λ k. k.created_at) (keep (λ k. k.tenant_id == tenant && is_active now k) ks))

module _ (sha256 : Text → Text) where
  unfoldable pub hash_key : Text → Text
  hash_key key = sha256 key

  abbrev pub new_row : Uuid → Text → CreateApiKey → DateTime → ApiKey
  new_row id plaintext_key d now = record {
    id = id;
    tenant_id = d.tenant_id;
    name = d.name;
    key_prefix = extract_prefix plaintext_key;
    key_hash = hash_key plaintext_key;
    scopes = d.scopes;
    created_at = now;
    last_used_at = none;
    revoked = false;
    revoked_at = none;
    expires_at = d.expires_at;
  }

  abbrev pub insert_row :
      Bool → Uuid → Text → CreateApiKey → DateTime → List ApiKey → Option (ApiKey × List ApiKey)
  insert_row admitted id key d now ks =
      if admitted && not (any (λ k. k.id == id || text_eq k.key_hash (hash_key key)) ks)
      then some (new_row id key d now, ks ++ new_row id key d now ∷ [])
      else none

  -- `admitted` tells whether the tenant exists and the texts fit their columns; `id` is what `gen_random_uuid()`
  -- gives, and `indices` are drawn.
  unfoldable pub create :
      Bool → Uuid → List ℕ → CreateApiKey → Query ApiKey SqlError (ApiKey × Text)
  create admitted id indices d = do
    let plaintext_key = generate_key indices
    api_key ← try_statement database (insert_row admitted id plaintext_key d)
    pure (api_key, plaintext_key)

  abbrev pub accepts : Text → DateTime → ApiKey → Bool
  accepts hash now key = text_eq key.key_hash hash && is_active now key

  unfoldable pub validate : Text → Query ApiKey SqlError (Option ApiKey)
  validate plaintext_key =
      let key_hash = hash_key plaintext_key in
      change database (λ now ks. returning_one (accepts key_hash now) (touch now) ks)
        (λ now ks. update_where (accepts key_hash now) (touch now) ks)
