-- ===== src/Scenarios/Hooks.antt =====
-- A tenant with two webhooks, of which one is turned off (axontask-shared/src/models/webhook.rs).
use axon_task.Prelude.{◌≡◌, refl, Text, text, text_eq, starts_with, true, false, [], ◌∷◌, ok}
use axon_task.Task.{Uuid}
use axon_task.Db.{Store}
use axon_task.Db.Tables.{select, change}
use axon_task.Models.Webhooks.{
  Webhook, update, toggle_active, delete, find_by_event_type, list_active_by_tenant,
}
use axon_task.Models.Dispatch.{turn_off, find_by_event_type-toggle_active}

abbrev hook : Uuid → Text → Webhook
hook id url = record {
  id = id;
  tenant_id = 4;
  url = url;
  secret = 1 ∷ [];
  active = true;
  events = text "task.failed" ∷ [];
  created_at = id;
  updated_at = 0;
}

abbrev first : Webhook
first = hook 1 (text "http://a")

abbrev second : Webhook
second = hook 2 (text "HTTPS://b")

abbrev hooks : Store Webhook
hooks = record { rows = first ∷ second ∷ []; now = 9; faults = false ∷ [] }

-- Both get the event, the newer one first, until one is turned off.
both_found : (find_by_event_type 4 (text "task.failed") hooks).0 ≡ ok (second ∷ first ∷ [])
unfolding find_by_event_type select text text_eq
both_found = refl

one_found :
    (find_by_event_type 4 (text "task.failed") (toggle_active 1 false hooks).1).0 ≡ ok (second ∷ [])
unfolding find_by_event_type toggle_active select change text text_eq
one_found = refl

find_by_event_type-toggle_active_example :
    ((toggle_active 1 false hooks).0 ≡ (delete 1 hooks).0)
    × ((find_by_event_type 4 (text "task.failed") (toggle_active 1 false hooks).1).0
        ≡ (find_by_event_type 4 (text "task.failed") (delete 1 hooks).1).0)
    × ((list_active_by_tenant 4 (toggle_active 1 false hooks).1).0
        ≡ (list_active_by_tenant 4 (delete 1 hooks).1).0)
    × ((update true 1 [] turn_off hooks).1 ≡ (toggle_active 1 false hooks).1)
unfolding text starts_with
find_by_event_type-toggle_active_example =
    find_by_event_type-toggle_active 1 4 (text "task.failed") [] hooks refl
