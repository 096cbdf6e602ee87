-- ===== src/Models/WebhookUpdates.antt =====
-- What the statement that `Webhook::update` puts together does (axontask-shared/src/models/webhook.rs).
use mathlib.Core.Path.{fun_ext}
use axon_task.Prelude.{
  ◌≡◌, refl, sym, ap, ◌∙◌, ℕ, Text, Bool, true, false, Option, none, some, List, [], ◌∷◌, map,
  if◌then◌else◌,
}
use axon_task.Task.{Uuid}
use axon_task.Task.Queries.{database}
use axon_task.Db.{DateTime, Store, try_statement}
use axon_task.Db.Tables.{update_where, returning_one}
use axon_task.Models.Updates.{
  is_some, wrap, set_clauses, bound, run, assign_given, assign_all, run-set_clauses, is_some-wrap,
  given, update_with_lem,
}
use axon_task.Models.Webhooks.{
  Webhook, UpdateWebhook, Column, url, events, secret, active, Value, plain, texts, bytes, flag,
  assign, columns, values, regenerated, set_fields, by_id, if_http, update,
}

-- The row with the fields that are given, and the new secret when one is asked for.
abbrev pub updated : DateTime → List ℕ → UpdateWebhook → Webhook → Webhook
updated now fresh d w = record w {
  url = given d.url w.url;
  events = given d.events w.events;
  secret = if d.regenerate_secret then fresh else w.secret;
  active = given d.active w.active;
  updated_at = now;
}

-- Each column with the value bound for it.
abbrev fields : List ℕ → UpdateWebhook → List (Column × Option Value)
fields fresh d =
    (url, wrap plain d.url)
    ∷ (events, wrap texts d.events)
    ∷ (secret, wrap bytes (regenerated d.regenerate_secret fresh))
    ∷ (active, wrap flag d.active)
    ∷ []

is_some-regenerated : (b : Bool) (fresh : List ℕ) → is_some (wrap bytes (regenerated b fresh)) ≡ b
is_some-regenerated true fresh = refl
is_some-regenerated false fresh = refl

columns_of_fields :
    (fresh : List ℕ) (d : UpdateWebhook)
    → map (λ f. (f.0, is_some f.1)) (fields fresh d) ≡ columns d
columns_of_fields fresh d =
    rw
      (
        is_some-wrap plain d.url,
        is_some-wrap texts d.events,
        is_some-regenerated d.regenerate_secret fresh,
        is_some-wrap flag d.active,
      )
      refl

url_given :
    (o : Option Text) (w : Webhook)
    → assign_given assign url (wrap plain o) w ≡ some (record w { url = given o w.url })
url_given none w = refl
url_given (some v) w = refl

events_given :
    (o : Option (List Text)) (w : Webhook)
    → assign_given assign events (wrap texts o) w ≡ some (record w { events = given o w.events })
events_given none w = refl
events_given (some v) w = refl

secret_given :
    (b : Bool) (fresh : List ℕ) (w : Webhook)
    → assign_given assign secret (wrap bytes (regenerated b fresh)) w
      ≡ some (record w { secret = if b then fresh else w.secret })
secret_given true fresh w = refl
secret_given false fresh w = refl

active_given :
    (o : Option Bool) (w : Webhook)
    → assign_given assign active (wrap flag o) w ≡ some (record w { active = given o w.active })
active_given none w = refl
active_given (some v) w = refl

assigned :
    (now : DateTime) (fresh : List ℕ) (d : UpdateWebhook) (w : Webhook)
    → assign_all assign (fields fresh d) (record w { updated_at = now })
      ≡ some (updated now fresh d w)
unfolding assign_all
assigned now fresh d w =
    let w1 = record w { updated_at = now } in
    let w2 = record w1 { url = given d.url w.url } in
    let w3 = record w2 { events = given d.events w.events } in
    let w4 = record w3 { secret = if d.regenerate_secret then fresh else w.secret } in
    rw
      (
        url_given d.url w1,
        events_given d.events w2,
        secret_given d.regenerate_secret fresh w3,
        active_given d.active w4,
      )
      refl

set_fields_lem :
    (now : DateTime) (fresh : List ℕ) (d : UpdateWebhook) (w : Webhook)
    → set_fields now fresh d w ≡ some (updated now fresh d w)
set_fields_lem now fresh d w =
    ap
      (λ cs. run assign (set_clauses 1 cs) (bound (values fresh d)) (record w { updated_at = now }))
      (sym (columns_of_fields fresh d))
    ∙ run-set_clauses assign (fields fresh d) (record w { updated_at = now })
    ∙ assigned now fresh d w

-- What `Webhook::update` does to the table.
pub update_effect :
    (fits : Bool) (id : Uuid) (fresh : List ℕ) (d : UpdateWebhook) (s : Store Webhook)
    → update fits id fresh d s
      ≡ try_statement database
          (λ now ws. if_http fits (
            some (
              returning_one (by_id id) (updated now fresh d) ws,
              update_where (by_id id) (updated now fresh d) ws,
            )))
          s
unfolding update
update_effect fits id fresh d s =
    ap (λ effect. try_statement database effect s)
      (fun_ext (λ now. fun_ext (λ ws. ap (if_http fits) (
        update_with_lem (by_id id) (set_fields now fresh d) (updated now fresh d) ws
          (set_fields_lem now fresh d)))))
