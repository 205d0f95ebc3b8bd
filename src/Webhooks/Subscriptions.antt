-- ===== src/Webhooks/Subscriptions.antt =====
-- internal/core/usecase/webhook.go, with a delivery repository and the dispatcher attached, over the tables of
-- internal/adapters/outbound/postgres (query/webhook_subscriptions.sql). The dispatcher only takes a delivery on:
-- the goroutine that it starts runs Webhooks.Dispatcher.deliver.
use Prim.Native.String.{◌++◌}
use observai_api.Base.{
  ℕ, zero, suc, String, Bool, false, not, ◌&&◌, ◌||◌, List, [], ◌∷◌, ◌++◌ as append, map, Option,
  none, some, filter, is_none, if◌then◌else◌,
}
use observai_api.Base.Int.{ℤ, pos, negsuc}
use observai_api.Base.Text.{trim_space, is_empty, str_eq}
use observai_api.Base.Dict.{lookup, insert}
use observai_api.Base.Errors.{Error, Result, ok, err, error, invalid_webhook, webhook_not_found}
use observai_api.Base.Exec.{◌>>=◌, ◌>>◌, Exec, pure, fail, lift, gets, modify, wrapping}
use observai_api.Domain.Analysis.{Time}
use observai_api.Webhooks.Types.{
  Webhook, WebhookDelivery, delivery_pending, WebhookState, WebhookPorts,
}
use observai_api.Webhooks.Rows.{
  no_delivery, create_delivery, find_delivery, list_pending, schedule_row_retry,
}

abbrev pub no_webhook : Error
no_webhook = error webhook_not_found "webhook not found"

abbrev invalid : String → Error
invalid why = error invalid_webhook ("invalid webhook: " ++ why)

abbrev or_no_webhook : Option Webhook → Result Webhook
or_no_webhook none = err no_webhook
or_no_webhook (some webhook) = ok webhook

-- FindWebhookSubscription
unfoldable pub find_row : String → Exec WebhookState Webhook
find_row id w = (or_no_webhook (lookup id w.subscriptions), w)

abbrev put_row : Webhook → WebhookState → WebhookState
put_row webhook w = record w { subscriptions = insert webhook.id webhook w.subscriptions }

abbrev disable_found : Option Webhook → WebhookState → WebhookState
disable_found none w = w
disable_found (some webhook) w =
    if is_none webhook.disabled_at
    then put_row (record webhook { disabled_at = some w.time }) w
    else w

-- ListActiveWebhooksForEvent
unfoldable pub active_rows : String → WebhookState → List Webhook
active_rows event w =
    filter (λ webhook. str_eq webhook.event event && is_none webhook.disabled_at)
      (map (λ entry. entry.1) w.subscriptions)

-- ListActive
unfoldable pub list_active : WebhookPorts → String → Exec WebhookState (List Webhook)
unfolding active_rows
list_active ports event = do
  wrapping "list active webhooks" (lift ports.can_list)
  gets (active_rows event)

-- The row that persistDelivery makes.
abbrev pub new_delivery : String → String → String → String → Time → WebhookDelivery
new_delivery subscription_id event payload id now = record {
  id = id;
  subscription_id = subscription_id;
  event = event;
  payload = payload;
  status = delivery_pending;
  attempt = 0;
  last_error = "";
  response_status = 0;
  next_attempt_at = none;
  delivered_at = none;
  created_at = now;
  updated_at = now;
}

-- The dispatcher's Dispatch
abbrev pub hand_over : Webhook → WebhookDelivery → WebhookState → WebhookState
hand_over webhook delivery w = record w {
  handed_over = append w.handed_over ((webhook, delivery) ∷ []);
}

module _ (ports : WebhookPorts) where
  unfoldable pub draw_id : Exec WebhookState String
  draw_id w = (ports.next_id w.ids_drawn, record w { ids_drawn = suc w.ids_drawn })

  -- generateWebhookSecret
  unfoldable pub generate_webhook_secret : Exec WebhookState String
  generate_webhook_secret w =
      (ports.random_hex w.secrets_drawn, record w { secrets_drawn = suc w.secrets_drawn })

  abbrev is_endpoint : Option (String × String) → Bool
  is_endpoint none = false
  is_endpoint (some (scheme, host)) =
      not (is_empty host) && (str_eq scheme "http" || str_eq scheme "https")

  -- validateWebhookTarget
  unfoldable pub validate_webhook_target : String → String → Result (String × String)
  unfolding trim_space
  validate_webhook_target target event =
      if not (is_endpoint (ports.parse_url (trim_space target)))
      then err (invalid "url must be a valid http(s) endpoint")
      else if is_empty (trim_space event)
      then err (invalid "event is required")
      else ok (trim_space target, trim_space event)

  abbrev given_or_new : String → Exec WebhookState String
  given_or_new secret =
      if is_empty secret
      then wrapping "generate webhook secret" generate_webhook_secret
      else pure secret

  -- Create
  unfoldable pub create_webhook : String → String → String → String → Exec WebhookState Webhook
  unfolding validate_webhook_target draw_id generate_webhook_secret trim_space
  create_webhook name target event secret = do
    cleaned ← lift (validate_webhook_target target event)
    id ← wrapping "generate webhook id" draw_id
    used ← given_or_new (trim_space secret)
    now ← gets (λ w. w.time)
    let webhook : Webhook = record {
      id = id;
      name = trim_space name;
      url = cleaned.0;
      secret = used;
      event = cleaned.1;
      created_at = now;
      disabled_at = none;
    }
    modify (put_row webhook)
    pure webhook

  -- Update
  unfoldable pub update_webhook :
      String → String → String → String → String → Exec WebhookState Webhook
  unfolding validate_webhook_target find_row trim_space
  update_webhook id name target event secret =
      if is_empty (trim_space id) then fail no_webhook else do
        cleaned ← lift (validate_webhook_target target event)
        current ← find_row (trim_space id)
        let used = if is_empty (trim_space secret) then current.secret else trim_space secret
        modify (
            put_row (record current {
              name = trim_space name;
              url = cleaned.0;
              event = cleaned.1;
              secret = used;
            }))
        find_row (trim_space id)

  -- persistDelivery
  unfoldable pub persist_delivery : String → String → String → Exec WebhookState WebhookDelivery
  unfolding draw_id create_delivery
  persist_delivery subscription_id event payload = do
    now ← gets (λ w. w.time)
    id ← wrapping "generate delivery id" draw_id
    let delivery : WebhookDelivery = new_delivery subscription_id event payload id now
    wrapping "persist webhook delivery" (create_delivery ports delivery)
    pure delivery

  -- dispatchOnce
  unfoldable pub dispatch_once : Webhook → String → String → Exec WebhookState (Unit {0})
  unfolding persist_delivery
  dispatch_once webhook event payload = do
    delivery ← persist_delivery webhook.id event payload
    modify (hand_over webhook delivery)

  -- The loop of DispatchEvent.
  unfoldable pub dispatch_each : List Webhook → String → String → Exec WebhookState (Unit {0})
  unfolding dispatch_once
  dispatch_each [] event payload = pure tt
  dispatch_each (webhook ∷ rest) event payload = do
    dispatch_once webhook event payload
    dispatch_each rest event payload

  -- DispatchEvent
  unfoldable pub dispatch_event : String → String → Exec WebhookState (Unit {0})
  unfolding list_active dispatch_each
  dispatch_event event payload = do
    webhooks ← wrapping ("list webhooks for " ++ event) (list_active ports event)
    dispatch_each webhooks event payload

-- Find
unfoldable pub find_webhook : String → Exec WebhookState Webhook
unfolding find_row trim_space
find_webhook id = if is_empty (trim_space id) then fail no_webhook else find_row (trim_space id)

-- Disable, which passes the identifier on as it is given
unfoldable pub disable_webhook : String → Exec WebhookState (Unit {0})
unfolding trim_space
disable_webhook id =
    if is_empty (trim_space id)
    then fail (invalid "id is required")
    else modify (λ w. disable_found (lookup id w.subscriptions) w)

-- Retry
unfoldable pub retry_delivery : String → Exec WebhookState WebhookDelivery
unfolding find_delivery find_row schedule_row_retry trim_space
retry_delivery delivery_id = if is_empty (trim_space delivery_id) then fail no_delivery else do
  delivery ← (λ w. (find_delivery (trim_space delivery_id) w, w))
  webhook ← find_row delivery.subscription_id
  now ← gets (λ w. w.time)
  let again : WebhookDelivery = record delivery {
    status = delivery_pending;
    last_error = "";
    next_attempt_at = none;
    updated_at = now;
  }
  modify (schedule_row_retry again.id again.attempt 0 "" now now)
  modify (hand_over webhook again)
  pure again

abbrev hand_over_found : Option Webhook → WebhookDelivery → ℕ × WebhookState → ℕ × WebhookState
hand_over_found none delivery (n, w) = (n, w)
hand_over_found (some webhook) delivery (n, w) = (suc n, hand_over webhook delivery w)

-- The loop of DispatchPending, with the count so far.
unfoldable pub dispatch_pending_each : List WebhookDelivery → ℕ × WebhookState → ℕ × WebhookState
dispatch_pending_each [] counted = counted
dispatch_pending_each (delivery ∷ rest) counted =
    dispatch_pending_each rest
      (hand_over_found (lookup delivery.subscription_id counted.1.subscriptions) delivery counted)

abbrev sweep_limit : ℤ → ℕ
sweep_limit (pos zero) = 50
sweep_limit (pos (suc n)) = suc n
sweep_limit (negsuc n) = 50

-- DispatchPending
unfoldable pub dispatch_pending : Time → ℤ → WebhookState → ℕ × WebhookState
unfolding list_pending dispatch_pending_each
dispatch_pending cutoff limit w =
    dispatch_pending_each (list_pending cutoff (sweep_limit limit) w) (0, w)
