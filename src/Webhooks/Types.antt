-- ===== src/Webhooks/Types.antt =====
-- internal/core/domain/webhook.go, and the state that the webhooks work on.
use observai_api.Base.{ℕ, String, List, Option}
use observai_api.Base.Int.{ℤ}
use observai_api.Base.Dict.{Dict}
use observai_api.Base.Errors.{Result}
use observai_api.Domain.Analysis.{Time}

pub data WebhookDeliveryStatus : Type 0 where
  delivery_pending delivery_delivered delivery_failed : WebhookDeliveryStatus

-- The payload is the text of its JSON document.
pub record WebhookDelivery : Type 0 where
  pub id : String
  pub subscription_id : String
  pub event : String
  pub payload : String
  pub status : WebhookDeliveryStatus
  pub attempt : ℕ
  pub last_error : String
  pub response_status : ℕ
  pub next_attempt_at : Option Time
  pub delivered_at : Option Time
  pub created_at : Time
  pub updated_at : Time

pub record Webhook : Type 0 where
  pub id : String
  pub name : String
  pub url : String
  pub secret : String
  pub event : String
  pub created_at : Time
  pub disabled_at : Option Time

-- What comes of a request: it cannot be built, no response comes, or a response with a status.
pub data Response : Type 0 where
  not_built no_response : String → Response
  responded : ℕ → Response

-- The tables, the clock, the deliveries handed to the dispatcher, and counts of the identifiers and
-- secrets drawn and of the requests made so far.
pub record WebhookState : Type 0 where
  pub time : Time
  pub subscriptions : Dict Webhook
  pub deliveries : Dict WebhookDelivery
  pub handed_over : List (Webhook × WebhookDelivery)
  pub ids_drawn : ℕ
  pub secrets_drawn : ℕ
  pub requests : ℕ

-- The receivers, by the number of the request; the options of the dispatcher, with the defaults applied;
-- the generators of identifiers and of secrets; the scheme and the host that net/url.Parse finds; the int64 that Go makes of a product
-- beyond its range; and whether the database answers the query of the active subscriptions, and takes a new row
-- into the table of the deliveries, or what its error is.
pub record WebhookPorts : Type 0 where
  pub respond : ℕ → Webhook → WebhookDelivery → Response
  pub next_id : ℕ → Result String
  pub random_hex : ℕ → Result String
  pub parse_url : String → Option (String × String)
  pub max_attempts : ℕ
  pub retry_base_delay : ℕ
  pub retry_max_delay : ℕ
  pub beyond_int64 : ℕ → ℤ
  pub can_list : Result (Unit {0})
  pub can_insert : Dict WebhookDelivery → WebhookDelivery → Result (Unit {0})
