-- ===== src/Webhooks/FanOut.antt =====
-- internal/core/usecase/webhook.go: DispatchEvent reaches every active subscriber of the event.
use mathlib.Core.List.{append_assoc, append-nil}
use observai_api.Base.Text.{str_eq}
use observai_api.Base.{
  Bool-cases, Option-cases, none, is_none, true, false, filter, ◌&&◌, All, subst, eq_iff, String,
  List, [], ◌∷◌, ◌++◌, map, ◌≡◌, refl, sym, ap, ◌∙◌, arith, inl, inr,
}
use observai_api.Base.Errors.{Result-cases, ok, err}
use observai_api.Domain.Analysis.{Time}
use observai_api.Webhooks.Types.{
  delivery_pending, Webhook, WebhookDelivery, WebhookState, WebhookPorts,
}
use observai_api.Webhooks.Rows.{create_delivery}
use observai_api.Webhooks.Subscriptions.{
  new_delivery, active_rows, list_active, draw_id, persist_delivery, dispatch_once, dispatch_each,
  dispatch_event,
}

-- A subscription that the event is for and that is not disabled.
abbrev pub Listens : String → Webhook → Type 0
Listens event webhook = (webhook.event ≡ event) × (webhook.disabled_at ≡ none)

-- The second list has those of the first that listen to the event, in the same order, and no other.
pub data Listeners (event : String) : List Webhook → List Webhook → Type 0 where
  no_more : Listeners event [] []
  listens :
      {webhook : Webhook} {webhooks kept : List Webhook}
      → Listens event webhook
      → Listeners event webhooks kept
      → Listeners event (webhook ∷ webhooks) (webhook ∷ kept)
  passes :
      {webhook : Webhook} {webhooks kept : List Webhook}
      → ¬ Listens event webhook
      → Listeners event webhooks kept
      → Listeners event (webhook ∷ webhooks) kept

-- A new delivery to the subscription, as the dispatcher gets it.
pub record IsDeliveryOf (event payload : String) (sent : Webhook × WebhookDelivery) : Type 0 where
  pub subscription : sent.1.subscription_id ≡ sent.0.id
  pub event_sent : sent.1.event ≡ event
  pub payload_sent : sent.1.payload ≡ payload
  pub pending : sent.1.status ≡ delivery_pending
  pub untried : sent.1.attempt ≡ 0

-- What DispatchEvent hands over, between the states before and after it.
pub record IsFanOut (event payload : String) (w after : WebhookState) : Type 0 where
  pub sent : List (Webhook × WebhookDelivery)
  pub appended : after.handed_over ≡ w.handed_over ++ sent
  pub deliveries : All (IsDeliveryOf event payload) sent
  pub receivers : Listeners event (map (λ entry. entry.1) w.subscriptions) (map (λ s. s.0) sent)

active_rows-Listeners :
    (event : String) (webhooks : List Webhook)
    → Listeners event webhooks
        (filter (λ webhook. str_eq webhook.event event && is_none webhook.disabled_at) webhooks)
active_rows-Listeners event [] = no_more
active_rows-Listeners event (webhook ∷ webhooks) =
    let rest = active_rows-Listeners event webhooks in
    elim (Bool-cases (str_eq webhook.event event)) [
      | inr other ↦
          rw other
            (passes (λ l. absurd (ground (arith, (eq_iff webhook.event event).1 l.0, other))) rest)
      | inl same ↦ elim (Option-cases webhook.disabled_at) [
        | inl enabled ↦
            let on : is_none webhook.disabled_at ≡ true = ap is_none enabled in
            rw (same, on) (listens ((eq_iff webhook.event event).0 same, enabled) rest)
        | inr (at, disabled) ↦
            let off : is_none webhook.disabled_at ≡ false = ap is_none disabled in
            rw (same, off) (passes (λ l. absurd (cc (l.1, disabled))) rest)
      ]
    ]

-- What the loop hands over for a list of subscriptions.
record IsSent (event payload : String) (webhooks : List Webhook) (w after : WebhookState)
    : Type 0 where
  sent : List (Webhook × WebhookDelivery)
  appended : after.handed_over ≡ w.handed_over ++ sent
  deliveries : All (IsDeliveryOf event payload) sent
  receivers : map (λ s. s.0) sent ≡ webhooks

-- The first subscription of the list, before the others.
IsSent-first :
    {event payload : String} {webhook : Webhook} {row : WebhookDelivery} {rest : List Webhook}
    {w mid after : WebhookState}
    → IsDeliveryOf event payload (webhook, row)
    → mid.handed_over ≡ w.handed_over ++ (webhook, row) ∷ []
    → IsSent event payload rest mid after
    → IsSent event payload (webhook ∷ rest) w after
IsSent-first {webhook} {row} {w} is_delivery first later = record {
  sent = (webhook, row) ∷ later.sent;
  appended =
      later.appended
      ∙ ap (λ xs. xs ++ later.sent) first
      ∙ append_assoc w.handed_over ((webhook, row) ∷ []) later.sent;
  deliveries = (is_delivery, later.deliveries);
  receivers = ap (λ ws. webhook ∷ ws) later.receivers;
}

new_delivery-IsDeliveryOf :
    (webhook : Webhook) (event payload id : String) (now : Time)
    → IsDeliveryOf event payload (webhook, new_delivery webhook.id event payload id now)
new_delivery-IsDeliveryOf webhook event payload id now = record {
  subscription = refl;
  event_sent = refl;
  payload_sent = refl;
  pending = refl;
  untried = refl;
}

module _ (ports : WebhookPorts) (event payload : String) where
  dispatch_each-IsSent :
      (webhooks : List Webhook) (w : WebhookState)
      → (dispatch_each ports webhooks event payload w).0 ≡ ok tt
      → IsSent event payload webhooks w (dispatch_each ports webhooks event payload w).1
  unfolding dispatch_each dispatch_once persist_delivery draw_id create_delivery
  dispatch_each-IsSent [] w h = record {
    sent = [];
    appended = sym (append-nil w.handed_over);
    deliveries = tt;
    receivers = refl;
  }
  dispatch_each-IsSent (webhook ∷ rest) w h = elim (Result-cases (ports.next_id w.ids_drawn)) [
    | inr (e, none_left) ↦ let q : err _ ≡ ok (tt {0}) = rw none_left at h in absurd (ground arith)
    | inl (id, drawn) ↦
        let row = new_delivery webhook.id event payload id w.time in
        elim (Result-cases (ports.can_insert w.deliveries row)) [
          | inr (e, refused) ↦
              let q : err _ ≡ ok (tt {0}) = rw refused at (rw drawn at h) in absurd (ground arith)
          | inl (_, taken) ↦
              let later = dispatch_each-IsSent rest _ (rw taken at (rw drawn at h)) in
              rw drawn (
                rw taken (
                  IsSent-first (new_delivery-IsDeliveryOf webhook event payload id w.time) refl
                    later))
        ]
  ]

  -- If DispatchEvent succeeds, then it has handed the dispatcher one new delivery for each subscription of
  -- the event that is not disabled, in the order of the table and after those handed over before,
  -- and none for any other. Each is pending, not tried yet, and carries the identifier of the
  -- subscription, the event and the payload.
  pub dispatch_event-IsFanOut :
      (w : WebhookState)
      → (dispatch_event ports event payload w).0 ≡ ok tt
      → IsFanOut event payload w (dispatch_event ports event payload w).1
  unfolding dispatch_event list_active active_rows
  dispatch_event-IsFanOut w h = elim (Result-cases ports.can_list) [
    | inr (e, failed) ↦ let q : err _ ≡ ok (tt {0}) = rw failed at h in absurd (ground arith)
    | inl (_, listed) ↦
        let all = map (λ (entry : String × Webhook). entry.1) w.subscriptions in
        let s = dispatch_each-IsSent (active_rows event w) w (rw listed at h) in
        rw listed (record {
          sent = s.sent;
          appended = s.appended;
          deliveries = s.deliveries;
          receivers =
              subst (Listeners event all) (sym s.receivers) (active_rows-Listeners event all);
        })
  ]
