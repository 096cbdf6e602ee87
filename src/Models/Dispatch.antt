-- ===== src/Models/Dispatch.antt =====
-- Which webhooks an event reaches (axontask-shared/src/models/webhook.rs).
use axon_task.Prelude.{
  ◌≡◌, refl, ap, ◌∙◌, inl, inr, ℕ, Text, Bool, true, false, ◌&&◌, none, some, List, [], ◌∷◌, keep,
  all, Bool-cases, ◌==◌,
}
use axon_task.Task.{Uuid}
use axon_task.Task.Queries.{database}
use axon_task.Db.{DateTime, Store}
use axon_task.Db.Tables.{
  change, update_where, delete_where, returning_one, is_affected, descending, select-change,
}
use axon_task.Models.Webhooks.{
  Webhook, UpdateWebhook, by_id, is_http, if_http, set_active, newest_first, subscribed, update,
  toggle_active, delete, find_by_event_type, list_active_by_tenant,
}
use axon_task.Models.WebhookUpdates.{updated, update_effect}

off : (b c : Bool) → b && false && c ≡ false
off true c = refl
off false c = refl

alone : (b : Bool) → b && false ≡ false
alone true = refl
alone false = refl

-- A test that only webhooks that are turned on pass does not tell one that is turned off from one that is deleted.
keep-turned_off :
    (p : Webhook → Bool) (id : Uuid) (now : DateTime) (ws : List Webhook)
    → ((w : Webhook) → p (set_active now false w) ≡ false)
    → keep p (update_where (by_id id) (set_active now false) ws)
      ≡ keep p (delete_where (by_id id) ws)
keep-turned_off p id now [] h = refl
keep-turned_off p id now (w ∷ ws) h = elim (Bool-cases (by_id id w)) [
  | inl e ↦ rw (e, h w) (keep-turned_off p id now ws h)
  | inr e ↦ elim (Bool-cases (p w)) [
    | inl q ↦ rw (e, q) (ap (◌∷◌ w) (keep-turned_off p id now ws h))
    | inr q ↦ rw (e, q) (keep-turned_off p id now ws h)
  ]
]

all_http-update_where :
    (hit : Webhook → Bool) (f : Webhook → Webhook) (ws : List Webhook)
    → ((w : Webhook) → (f w).url ≡ w.url)
    → all (λ w. is_http w.url) (update_where hit f ws) ≡ all (λ w. is_http w.url) ws
all_http-update_where hit f [] h = refl
all_http-update_where hit f (w ∷ ws) h = elim (Bool-cases (hit w)) [
  | inl e ↦ rw (e, h w, all_http-update_where hit f ws h) refl
  | inr e ↦ rw (e, all_http-update_where hit f ws h) refl
]

-- `UpdateWebhook { active: Some(false), ..Default::default() }`
abbrev pub turn_off : UpdateWebhook
turn_off = record { url = none; events = none; regenerate_secret = false; active = some false }

checked :
    (id : Uuid) (fresh : List ℕ) (now : DateTime) (ws : List Webhook)
    → all (λ w. is_http w.url) ws ≡ true
    → if_http true (
        some (
          returning_one (by_id id) (updated now fresh turn_off) ws,
          update_where (by_id id) (updated now fresh turn_off) ws,
        ))
      ≡ some (
        returning_one (by_id id) (updated now fresh turn_off) ws,
        update_where (by_id id) (set_active now false) ws,
      )
checked id fresh now ws h =
    rw (all_http-update_where (by_id id) (updated now fresh turn_off) ws (λ w. refl) ∙ h) refl

turned_off :
    (id : Uuid) (fresh : List ℕ) (now : DateTime) (ws : List Webhook) (faults : List Bool)
    → all (λ w. is_http w.url) ws ≡ true
    → (let s : Store Webhook = record { rows = ws; now = now; faults = faults } in
        (update true id fresh turn_off s).1 ≡ (toggle_active id false s).1)
unfolding toggle_active change
turned_off id fresh now ws [] h =
    ap (λ p. p.1) (update_effect true id fresh turn_off _) ∙ rw (checked id fresh now ws h) refl
turned_off id fresh now ws (true ∷ rest) h = ap (λ p. p.1) (update_effect true id fresh turn_off _)
turned_off id fresh now ws (false ∷ rest) h =
    ap (λ p. p.1) (update_effect true id fresh turn_off _) ∙ rw (checked id fresh now ws h) refl

-- Turning a webhook off and deleting it are the same to an event: both answer the same, and afterwards
-- `find_by_event_type` gives the same webhooks, for any tenant and type of event, and `list_active_by_tenant` does
-- too, whichever of these statements fail. When all URLs are ones of HTTP, `update` with nothing but `active: false`
-- leaves what `toggle_active` leaves.
pub find_by_event_type-toggle_active :
    (id tenant : Uuid) (kind : Text) (fresh : List ℕ) (s : Store Webhook)
    → all (λ w. is_http w.url) s.rows ≡ true
    → ((toggle_active id false s).0 ≡ (delete id s).0)
      × ((find_by_event_type tenant kind (toggle_active id false s).1).0
          ≡ (find_by_event_type tenant kind (delete id s).1).0)
      × ((list_active_by_tenant tenant (toggle_active id false s).1).0
          ≡ (list_active_by_tenant tenant (delete id s).1).0)
      × ((update true id fresh turn_off s).1 ≡ (toggle_active id false s).1)
unfolding toggle_active delete find_by_event_type list_active_by_tenant
find_by_event_type-toggle_active id tenant kind fresh s h =
    let view = λ (p : Webhook → Bool) (now : DateTime) (ws : List Webhook). newest_first p ws in
    let hidden = λ (p : Webhook → Bool) (k : (w : Webhook) → p (set_active s.now false w) ≡ false).
      select-change database (view p) (λ now ws. is_affected (by_id id) ws)
        (λ now ws. update_where (by_id id) (set_active now false) ws)
        (λ now ws. delete_where (by_id id) ws) s
        (ap (descending (λ w. w.created_at)) (keep-turned_off p id s.now s.rows k)) in
    let (answers, found) = hidden (subscribed tenant kind) (λ w. off (w.tenant_id == tenant) _) in
    let (_, listed) =
      hidden (λ w. w.tenant_id == tenant && w.active) (λ w. alone (w.tenant_id == tenant)) in
    (answers, found, listed, turned_off id fresh s.now s.rows s.faults h)
