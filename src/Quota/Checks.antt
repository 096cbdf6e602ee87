-- ===== src/Quota/Checks.antt =====
-- What a check of a quota answers (axontask-shared/src/quota.rs), as `start_task` passes it on.
use axon_task.Prelude.{
  ℕ, ◌<◌, ◌≡◌, refl, ap, ◌∙◌, Text, Bool, true, false, Option, some, List, [], length, length-keep,
  leb, Result, ok, err, arith,
}
use axon_task.Task.{Uuid, DateTime, Task}
use axon_task.Task.Queries.{database, SqlError}
use axon_task.Store.Rows.{rows_affected}
use axon_task.Db.{Store, ◌>>=◌, pure, map_err, lift, or_raise, statement}
use axon_task.Db.Laws.{statement_up, bind-ok, map_err-ok}
use axon_task.Quota.{
  QuotaType, concurrent_tasks, daily_tasks, stream_connections, QuotaError, limit_exceeded,
  database_error, tenant_not_found, limits_of, get, to_u32, is_running_of, is_recent_of,
  count_concurrent_tasks, count_daily_tasks, usage, plan_of, verdict, check, require, enforce,
}
use axon_task.Quota.Start.{ApiError, Requester, quota_error, within}

module _ {J : Type 0} (find_plan : Uuid → Result SqlError (Option Text))
    (print_id : Uuid → Text) where
  -- What a quota counts.
  abbrev pub used : Uuid → DateTime → List (Task J) → QuotaType → ℕ
  used tenant clock ts concurrent_tasks = rows_affected (is_running_of tenant) ts
  used tenant clock ts daily_tasks = rows_affected (is_recent_of tenant clock) ts
  used tenant clock ts stream_connections = 0

  abbrev pub is_full : Requester → DateTime → Text → List (Task J) → QuotaType → Bool
  is_full auth clock plan ts kind =
      leb (get (limits_of plan) kind) (used auth.tenant_id clock ts kind)

  module _ (auth : Requester) (clock : DateTime) (s : Store (Task J)) (up : s.faults ≡ [])
      (fits : length s.rows < 4294967296) (plan : Text)
      (planned : find_plan auth.tenant_id ≡ ok (some plan)) where
    small : (p : Task J → Bool) → to_u32 (rows_affected p s.rows) ≡ rows_affected p s.rows
    small p = omega (arith, length-keep p s.rows, fits)

    counted :
        (p : Task J → Bool)
        → map_err database_error
            (statement database (λ now ts. (to_u32 (rows_affected p ts), ts)))
            s
          ≡ (ok (rows_affected p s.rows), s)
    counted p =
        map_err-ok database_error (statement database (λ now ts. (to_u32 (rows_affected p ts), ts)))
          s s (to_u32 (rows_affected p s.rows))
          (statement_up database (λ now ts. (to_u32 (rows_affected p ts), ts)) s up)
        ∙ ap (λ n. (ok n, s)) (small p)

    usage-used :
        (kind : QuotaType)
        → usage auth.tenant_id clock kind s ≡ (ok (used auth.tenant_id clock s.rows kind), s)
    unfolding count_concurrent_tasks count_daily_tasks
    usage-used concurrent_tasks = counted (is_running_of auth.tenant_id)
    usage-used daily_tasks = counted (is_recent_of auth.tenant_id clock)
    usage-used stream_connections = refl

    plan_of-planned : plan_of find_plan auth.tenant_id s ≡ (ok plan, s)
    plan_of-planned =
        bind-ok (map_err database_error (lift (find_plan auth.tenant_id)))
          (λ found. or_raise (tenant_not_found auth.tenant_id) found) s s (some plan)
          (map_err-ok database_error (lift (find_plan auth.tenant_id)) s s (some plan)
            (ap (λ r. (r, s)) planned))

    check-verdict :
        (kind : QuotaType)
        → check find_plan auth.tenant_id clock kind s
          ≡ (ok (verdict (get (limits_of plan) kind) (used auth.tenant_id clock s.rows kind)), s)
    unfolding check
    check-verdict kind =
        bind-ok (plan_of find_plan auth.tenant_id)
          (λ plan'. usage auth.tenant_id clock kind >>= λ current.
            pure (verdict (get (limits_of plan') kind) current))
          s s plan plan_of-planned
        ∙ bind-ok (usage auth.tenant_id clock kind)
            (λ current. pure (verdict (get (limits_of plan) kind) current)) s s
            (used auth.tenant_id clock s.rows kind) (usage-used kind)

    abbrev pub refusal : QuotaType → QuotaError
    refusal kind =
        limit_exceeded kind (get (limits_of plan) kind) (used auth.tenant_id clock s.rows kind)

    required :
        (kind : QuotaType) (limit current : ℕ) (full : Bool)
        → leb limit current ≡ full
        → require find_plan kind (verdict limit current) s
          ≡ (elim full [ true ↦ err (limit_exceeded kind limit current) | false ↦ ok tt ], s)
    required kind limit current true h = ground arith
    required kind limit current false h = ground arith

    enforced :
        (kind : QuotaType) (full : Bool)
        → is_full auth clock plan s.rows kind ≡ full
        → enforce find_plan auth.tenant_id clock kind s
          ≡ (elim full [ true ↦ err (refusal kind) | false ↦ ok tt ], s)
    unfolding enforce
    enforced kind full h =
        bind-ok (check find_plan auth.tenant_id clock kind) (require find_plan kind) s s
          (verdict (get (limits_of plan) kind) (used auth.tenant_id clock s.rows kind))
          (check-verdict kind)
        ∙ required kind (get (limits_of plan) kind) (used auth.tenant_id clock s.rows kind) full h

    as_api_error :
        Result QuotaError (Unit {0}) × Store (Task J) → Result ApiError (Unit {0}) × Store (Task J)
    as_api_error (r, s') = map_err quota_error (λ _. (r, s')) s'

    pub refused :
        (kind : QuotaType)
        → is_full auth clock plan s.rows kind ≡ true
        → within find_plan print_id auth clock kind s ≡ (err (quota_error (refusal kind)), s)
    unfolding as_api_error
    refused kind h = ap as_api_error (enforced kind true h)

    pub passed :
        (kind : QuotaType)
        → is_full auth clock plan s.rows kind ≡ false
        → within find_plan print_id auth clock kind s ≡ (ok tt, s)
    unfolding as_api_error
    passed kind h = ap as_api_error (enforced kind false h)
