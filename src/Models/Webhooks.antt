-- ===== src/Models/Webhooks.antt =====
-- Webhooks and their statements (axontask-shared/src/models/webhook.rs). HMAC-SHA256 with its result in hexadecimal, and the
-- bytes of a new secret, are parameters.
use axon_task.Prelude.{
  ℕ, Text, text, text_eq, starts_with, Bool, true, false, not, ◌&&◌, ◌||◌, Option, none, some, List,
  [], ◌∷◌, ◌++◌, map, keep, any, all, head?, length, leb, ◌==◌, if◌then◌else◌, ◌+◌,
}
use axon_task.Task.{Uuid}
use axon_task.Task.Queries.{SqlError, database}
use axon_task.Db.{DateTime, Query, try_statement}
use axon_task.Db.Tables.{select, change, update_where, delete_where, is_affected, descending}
use axon_task.Models.Updates.{is_some, wrap, set_clauses, bound, run, update_with}

pub record Webhook : Type 0 where
  pub id : Uuid
  pub tenant_id : Uuid
  pub url : Text
  pub secret : List ℕ
  pub active : Bool
  pub events : List Text
  pub created_at : DateTime
  pub updated_at : DateTime

pub record CreateWebhook : Type 0 where
  pub tenant_id : Uuid
  pub url : Text
  pub events : List Text

abbrev pub default_events : List Text
default_events = text "task.succeeded" ∷ text "task.failed" ∷ []

pub record UpdateWebhook : Type 0 where
  pub url : Option Text
  pub events : Option (List Text)
  pub regenerate_secret : Bool
  pub active : Option Bool

-- `hmac key message`
abbrev pub generate_signature : (List ℕ → List ℕ → Text) → List ℕ → Webhook → Text
generate_signature hmac payload w = hmac w.secret payload

-- The constraint `url ~* '^https?://.*'`.
abbrev lower : ℕ → ℕ
lower c = if leb 65 c && leb c 90 then c + 32 else c

abbrev pub is_http : Text → Bool
is_http url =
    starts_with (map lower url) (text "http://") || starts_with (map lower url) (text "https://")

abbrev pub new_row : Uuid → List ℕ → CreateWebhook → DateTime → Webhook
new_row id secret d now = record {
  id = id;
  tenant_id = d.tenant_id;
  url = d.url;
  secret = secret;
  active = true;
  events = d.events;
  created_at = now;
  updated_at = now;
}

abbrev pub by_id : Uuid → Webhook → Bool
by_id id w = w.id == id

abbrev pub insert_row :
    Bool → Uuid → List ℕ → CreateWebhook → DateTime → List Webhook → Option (Webhook × List Webhook)
insert_row fits id secret d now ws =
    if fits && is_http d.url && not (any (by_id id) ws)
    then some (new_row id secret d now, ws ++ new_row id secret d now ∷ [])
    else none

-- `fits` tells whether the URL fits its column and the tenant exists; `id` is what `gen_random_uuid()` gives.
unfoldable pub create : Bool → Uuid → List ℕ → CreateWebhook → Query Webhook SqlError Webhook
create fits id secret d = try_statement database (insert_row fits id secret d)

unfoldable pub find_by_id : Uuid → Query Webhook SqlError (Option Webhook)
find_by_id id = select database (λ now ws. head? (keep (by_id id) ws))

unfoldable pub find_by_id_and_tenant : Uuid → Uuid → Query Webhook SqlError (Option Webhook)
find_by_id_and_tenant id tenant =
    select database (λ now ws. head? (keep (λ w. by_id id w && w.tenant_id == tenant) ws))

-- The columns that `update` can set, and the values that it binds; a value of another type is an error.
pub data Column : Type 0 where
  url events secret active : Column

pub data Value : Type 0 where
  plain : Text → Value
  texts : List Text → Value
  bytes : List ℕ → Value
  flag : Bool → Value

abbrev pub assign : Column → Value → Webhook → Option Webhook
assign url (plain t) w = some (record w { url = t })
assign events (texts ts) w = some (record w { events = ts })
assign secret (bytes bs) w = some (record w { secret = bs })
assign active (flag b) w = some (record w { active = b })
assign c v w = none

abbrev pub columns : UpdateWebhook → List (Column × Bool)
columns d =
    (url, is_some d.url)
    ∷ (events, is_some d.events)
    ∷ (secret, d.regenerate_secret)
    ∷ (active, is_some d.active)
    ∷ []

-- A new secret, when one is asked for.
abbrev pub regenerated : Bool → List ℕ → Option (List ℕ)
regenerated true fresh = some fresh
regenerated false fresh = none

abbrev pub values : List ℕ → UpdateWebhook → List (Option Value)
values fresh d =
    wrap plain d.url
    ∷ wrap texts d.events
    ∷ wrap bytes (regenerated d.regenerate_secret fresh)
    ∷ wrap flag d.active
    ∷ []

-- `SET updated_at = NOW(), …` on a row.
abbrev pub set_fields : DateTime → List ℕ → UpdateWebhook → Webhook → Option Webhook
set_fields now fresh d w =
    run assign (set_clauses 1 (columns d)) (bound (values fresh d)) (record w { updated_at = now })

abbrev pub if_http :
    Bool → Option (Option Webhook × List Webhook) → Option (Option Webhook × List Webhook)
if_http fits none = none
if_http fits (some (a, ws)) = if fits && all (λ w. is_http w.url) ws then some (a, ws) else none

unfoldable pub update :
    Bool → Uuid → List ℕ → UpdateWebhook → Query Webhook SqlError (Option Webhook)
update fits id fresh d =
    try_statement database
      (λ now ws. if_http fits (update_with (by_id id) (set_fields now fresh d) ws))

abbrev pub set_active : DateTime → Bool → Webhook → Webhook
set_active now to w = record w { active = to; updated_at = now }

unfoldable pub toggle_active : Uuid → Bool → Query Webhook SqlError Bool
toggle_active id to =
    change database (λ now ws. is_affected (by_id id) ws)
      (λ now ws. update_where (by_id id) (set_active now to) ws)

unfoldable pub delete : Uuid → Query Webhook SqlError Bool
delete id =
    change database (λ now ws. is_affected (by_id id) ws) (λ now ws. delete_where (by_id id) ws)

-- The rows that pass a test, `ORDER BY created_at DESC`.
abbrev pub newest_first : (Webhook → Bool) → List Webhook → List Webhook
newest_first hit ws = descending (λ w. w.created_at) (keep hit ws)

unfoldable pub list_by_tenant : Uuid → Query Webhook SqlError (List Webhook)
list_by_tenant tenant = select database (λ now ws. newest_first (λ w. w.tenant_id == tenant) ws)

unfoldable pub list_active_by_tenant : Uuid → Query Webhook SqlError (List Webhook)
list_active_by_tenant tenant =
    select database (λ now ws. newest_first (λ w. w.tenant_id == tenant && w.active) ws)

abbrev pub subscribed : Uuid → Text → Webhook → Bool
subscribed tenant kind w = w.tenant_id == tenant && w.active && any (text_eq kind) w.events

unfoldable pub find_by_event_type : Uuid → Text → Query Webhook SqlError (List Webhook)
find_by_event_type tenant kind =
    select database (λ now ws. newest_first (subscribed tenant kind) ws)

unfoldable pub count_by_tenant : Uuid → Query Webhook SqlError ℕ
count_by_tenant tenant = select database (λ now ws. length (keep (λ w. w.tenant_id == tenant) ws))
