-- ===== src/Webhooks/Dispatcher.antt =====
-- internal/adapters/outbound/webhooks/dispatcher.go, with a delivery repository attached. A call of the
-- repository does not fail.
use Prim.Native.String.{◌++◌}
use observai_api.Base.{
  ℕ, zero, suc, ◌+◌, ◌-◌, ◌*◌, ◌^◌, String, Bool, true, false, not, ◌||◌, Option, none, some, leb,
  ltb, if◌then◌else◌,
}
use observai_api.Base.Int.{ℤ, pos, negsuc, ltb_ℤ}
use observai_api.Base.Text.{is_empty, decimal}
use observai_api.Domain.Analysis.{Time}
use observai_api.Webhooks.Types.{
  Webhook, WebhookDelivery, Response, not_built, no_response, responded, WebhookState, WebhookPorts,
}
use observai_api.Webhooks.Rows.{mark_row_delivered, mark_row_failed, schedule_row_retry}

-- An error of `post`, and whether it is a transientError.
pub record PostError : Type 0 where
  pub transient : Bool
  pub message : String

abbrev pub status_error : Bool → ℕ → PostError
status_error transient status = record {
  transient = transient;
  message = "webhook returned status " ++ decimal status;
}

-- post: the status of the response, 0 if there is none, and the error.
unfoldable pub post : Response → ℕ × Option PostError
unfolding decimal
post (not_built why) =
    (0, some (record { transient = false; message = "build webhook request: " ++ why }))
post (no_response why) = (0, some (record { transient = true; message = "call webhook: " ++ why }))
post (responded status) =
    if leb 500 status
    then (status, some (status_error true status))
    else if leb 400 status
    then (status, some (status_error false status))
    else (status, none)

-- The product as a time.Duration: a float64 holds it exactly, its conversion is exact up to 2^63.
abbrev to_duration : WebhookPorts → ℕ → ℤ
to_duration ports n = if ltb n (2 ^ 63) then pos n else ports.beyond_int64 n

-- backoffFor
unfoldable pub backoff_for : WebhookPorts → ℕ → ℤ
backoff_for ports zero = pos ports.retry_base_delay
backoff_for ports (suc n) =
    let delay = to_duration ports (ports.retry_base_delay * 2 ^ n) in
    if ltb_ℤ (pos ports.retry_max_delay) delay then pos ports.retry_max_delay else delay

-- A time plus a duration; a time before Go's zero time is not modelled.
abbrev after : Time → ℤ → Time
after t (pos n) = t + n
after t (negsuc n) = t - suc n

unfoldable pub mark_delivered : String → ℕ → WebhookState → WebhookState
unfolding mark_row_delivered
mark_delivered id status w = if is_empty id then w else mark_row_delivered id status w.time w

unfoldable pub mark_failed : String → ℕ → ℕ → PostError → WebhookState → WebhookState
unfolding mark_row_failed
mark_failed id attempt status e w =
    if is_empty id then w else mark_row_failed id attempt status e.message w.time w

unfoldable pub schedule_retry : String → ℕ → ℕ → PostError → Time → WebhookState → WebhookState
unfolding schedule_row_retry
schedule_retry id attempt status e next w =
    if is_empty id then w else schedule_row_retry id attempt status e.message next w.time w

-- deliver, once the response is in.
unfoldable pub settle :
    WebhookPorts → WebhookDelivery → ℕ × Option PostError → WebhookState → WebhookState
unfolding mark_delivered mark_failed schedule_retry backoff_for
settle ports delivery (status, none) w = mark_delivered delivery.id status w
settle ports delivery (status, some e) w =
    let attempt = suc delivery.attempt in
    if leb ports.max_attempts attempt || not e.transient
    then mark_failed delivery.id attempt status e w
    else schedule_retry delivery.id attempt status e (after w.time (backoff_for ports attempt)) w

-- deliver
unfoldable pub deliver : WebhookPorts → Webhook → WebhookDelivery → WebhookState → WebhookState
unfolding post settle
deliver ports webhook delivery w =
    settle ports delivery (post (ports.respond w.requests webhook delivery))
      (record w { requests = suc w.requests })
