-- ===== src/Tests/Webhooks.antt =====
-- Runs of the theorems on webhooks.
use observai_api.Base.{false, [], ◌∷◌, none, some, ◌≡◌, refl, arith}
use observai_api.Base.Int.{pos}
use observai_api.Base.Dict.{lookup}
use observai_api.Base.Errors.{ok}
use observai_api.Webhooks.Types.{
  Webhook, WebhookDelivery, delivery_pending, no_response, WebhookState, WebhookPorts,
}
use observai_api.Webhooks.Rows.{is_pending}
use observai_api.Webhooks.Attempts.{sweeps, sweeps-settled}
use observai_api.Webhooks.Subscriptions.{dispatch_event}
use observai_api.Webhooks.FanOut.{IsFanOut, dispatch_event-IsFanOut}

abbrev hook : Webhook
hook = record {
  id = "w1";
  name = "ops";
  url = "https://ops.example.org/hook";
  secret = "s";
  event = "analysis.completed";
  created_at = 1;
  disabled_at = none;
}

abbrev disabled : Webhook
disabled = record hook { id = "w2"; disabled_at = some 5 }

abbrev waiting : WebhookDelivery
waiting = record {
  id = "d1";
  subscription_id = "w1";
  event = "analysis.completed";
  payload = "{}";
  status = delivery_pending;
  attempt = 0;
  last_error = "";
  response_status = 0;
  next_attempt_at = none;
  delivered_at = none;
  created_at = 10;
  updated_at = 10;
}

-- A receiver that never answers.
abbrev ports : WebhookPorts
ports = record {
  respond = λ n webhook delivery. no_response "connection refused";
  next_id = λ n. ok "d2";
  random_hex = λ n. ok "c0ffee";
  parse_url = λ url. some ("https", "ops.example.org");
  max_attempts = 3;
  retry_base_delay = 30;
  retry_max_delay = 1800;
  beyond_int64 = λ n. pos 0;
  can_list = ok tt;
  can_insert = λ rows row. ok tt;
}

abbrev state : WebhookState
state = record {
  time = 100;
  subscriptions = ("w1", hook) ∷ ("w2", disabled) ∷ [];
  deliveries = ("d1", waiting) ∷ [];
  handed_over = [];
  ids_drawn = 0;
  secrets_drawn = 0;
  requests = 0;
}

found : lookup "d1" state.deliveries ≡ some waiting
unfolding lookup
found = refl

sweeps-settled_example :
    (settled : WebhookDelivery) × (lookup "d1" (sweeps 3 ports hook "d1" state).deliveries
      ≡ some settled)
    × (is_pending settled.status ≡ false)
sweeps-settled_example = sweeps-settled ports hook waiting state refl found (omega arith)

dispatched : (dispatch_event ports "analysis.completed" "{}" state).0 ≡ ok tt
unfolding dispatch_event
dispatched = refl

dispatch_event-IsFanOut_example :
    IsFanOut "analysis.completed" "{}" state
      (dispatch_event ports "analysis.completed" "{}" state).1
dispatch_event-IsFanOut_example =
    dispatch_event-IsFanOut ports "analysis.completed" "{}" state dispatched
