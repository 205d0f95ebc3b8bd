-- ===== src/Webhooks/Rows.antt =====
-- internal/adapters/outbound/postgres: query/webhook_deliveries.sql and webhook_delivery_repository.go. A
-- statement is one step on the table, which is keyed by identifier.
use observai_api.Base.{
  ℕ, String, Bool, true, false, ◌&&◌, List, map, Option, none, some, filter, take, leb, ltb,
}
use observai_api.Base.Dict.{Dict, lookup, insert}
use observai_api.Base.Errors.{Error, Result, ok, err, error, webhook_delivery_not_found}
use observai_api.Base.Exec.{Exec}
use observai_api.Base.Sorting.{sort_stable}
use observai_api.Domain.Analysis.{Time}
use observai_api.Webhooks.Types.{
  WebhookDelivery, WebhookDeliveryStatus, delivery_pending, delivery_delivered, delivery_failed,
  WebhookState, WebhookPorts,
}

abbrev pub is_pending : WebhookDeliveryStatus → Bool
is_pending delivery_pending = true
is_pending delivery_delivered = false
is_pending delivery_failed = false

abbrev pub with_deliveries : Dict WebhookDelivery → WebhookState → WebhookState
with_deliveries rows w = record w { deliveries = rows }

abbrev insert_answered : Result (Unit {0}) → WebhookDelivery → Exec WebhookState (Unit {0})
insert_answered (err e) delivery w = (err e, w)
insert_answered (ok _) delivery w =
    (ok tt, with_deliveries (insert delivery.id delivery w.deliveries) w)

-- Create
unfoldable pub create_delivery : WebhookPorts → WebhookDelivery → Exec WebhookState (Unit {0})
create_delivery ports delivery w =
    insert_answered (ports.can_insert w.deliveries delivery) delivery w

abbrev pub no_delivery : Error
no_delivery = error webhook_delivery_not_found "webhook delivery not found"

abbrev or_no_delivery : Option WebhookDelivery → Result WebhookDelivery
or_no_delivery none = err no_delivery
or_no_delivery (some delivery) = ok delivery

-- Find
unfoldable pub find_delivery : String → WebhookState → Result WebhookDelivery
find_delivery id w = or_no_delivery (lookup id w.deliveries)

abbrev pub set_row :
    String
    → (WebhookDelivery → WebhookDelivery)
    → Option WebhookDelivery
    → Dict WebhookDelivery
    → Dict WebhookDelivery
set_row id change none rows = rows
set_row id change (some row) rows = insert id (change row) rows

-- UPDATE ... WHERE id = ...
unfoldable pub update_delivery :
    String → (WebhookDelivery → WebhookDelivery) → WebhookState → WebhookState
update_delivery id change w =
    with_deliveries (set_row id change (lookup id w.deliveries) w.deliveries) w

abbrev is_due : Time → Option Time → Bool
is_due cutoff none = true
is_due cutoff (some at) = leb at cutoff

-- ListPending
unfoldable pub list_pending : Time → ℕ → WebhookState → List WebhookDelivery
unfolding sort_stable
list_pending cutoff limit w = take limit (
    sort_stable (λ a b. ltb a.created_at b.created_at)
      (filter (λ d. is_pending d.status && is_due cutoff d.next_attempt_at)
        (map (λ entry. entry.1) w.deliveries)))

-- MarkDelivered
unfoldable pub mark_row_delivered : String → ℕ → Time → WebhookState → WebhookState
unfolding update_delivery
mark_row_delivered id status at w =
    update_delivery id
      (λ row. record row {
        status = delivery_delivered;
        response_status = status;
        delivered_at = some at;
        updated_at = at;
        last_error = "";
        next_attempt_at = none;
      })
      w

-- MarkFailed
unfoldable pub mark_row_failed : String → ℕ → ℕ → String → Time → WebhookState → WebhookState
unfolding update_delivery
mark_row_failed id attempt status message at w =
    update_delivery id
      (λ row. record row {
        status = delivery_failed;
        attempt = attempt;
        last_error = message;
        response_status = status;
        next_attempt_at = none;
        updated_at = at;
      })
      w

-- ScheduleRetry
unfoldable pub schedule_row_retry :
    String → ℕ → ℕ → String → Time → Time → WebhookState → WebhookState
unfolding update_delivery
schedule_row_retry id attempt status message next at w =
    update_delivery id
      (λ row. record row {
        status = delivery_pending;
        attempt = attempt;
        last_error = message;
        response_status = status;
        next_attempt_at = some next;
        updated_at = at;
      })
      w
