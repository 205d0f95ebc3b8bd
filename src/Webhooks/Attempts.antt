-- ===== src/Webhooks/Attempts.antt =====
-- internal/adapters/outbound/webhooks/dispatcher.go: a delivery comes to an end.
use observai_api.Base.{
  ℕ, zero, suc, ◌+◌, ◌≤◌, ◌<◌, String, true, false, not, ◌||◌, Option, none, some, ◌≡◌, refl, subst,
  sym, arith, Bool-cases, inl, inr, leb, if◌then◌else◌,
}
use observai_api.Base.Text.{is_empty}
use observai_api.Base.Dict.{lookup, lookup-insert_self}
use observai_api.Webhooks.Types.{Webhook, WebhookDelivery, WebhookState, WebhookPorts}
use observai_api.Webhooks.Rows.{
  is_pending, update_delivery, mark_row_delivered, mark_row_failed, schedule_row_retry,
}
use observai_api.Webhooks.Dispatcher.{
  PostError, post, mark_delivered, mark_failed, schedule_retry, settle, deliver,
}

abbrev deliver_pending :
    WebhookPorts → Webhook → Option WebhookDelivery → WebhookState → WebhookState
deliver_pending ports webhook none w = w
deliver_pending ports webhook (some row) w =
    if is_pending row.status then deliver ports webhook row w else w

-- One sweep, as far as it concerns one delivery that is due: it is delivered if it is pending.
unfoldable pub sweep_one : WebhookPorts → Webhook → String → WebhookState → WebhookState
unfolding deliver
sweep_one ports webhook id w = deliver_pending ports webhook (lookup id w.deliveries) w

unfoldable pub sweeps : ℕ → WebhookPorts → Webhook → String → WebhookState → WebhookState
unfolding sweep_one
sweeps zero ports webhook id w = w
sweeps (suc n) ports webhook id w = sweeps n ports webhook id (sweep_one ports webhook id w)

-- The row of a delivery that has used all but `n` of its attempts, or fewer.
record HasLeft (ports : WebhookPorts) (id : String) (n : ℕ) (row : Option WebhookDelivery)
    : Type 0 where
  found : WebhookDelivery
  is_found : row ≡ some found
  same_id : found.id ≡ id
  early : is_pending found.status ≡ true → found.attempt < ports.max_attempts
  left : is_pending found.status ≡ true → ports.max_attempts ≤ found.attempt + n

lookup-update_delivery :
    (id : String) (change : WebhookDelivery → WebhookDelivery) (w : WebhookState)
    (row : WebhookDelivery)
    → lookup id w.deliveries ≡ some row
    → lookup id (update_delivery id change w).deliveries ≡ some (change row)
unfolding update_delivery
lookup-update_delivery id change w row h = rw (h, lookup-insert_self) refl

module _ (ports : WebhookPorts) where
  settle-HasLeft :
      (n : ℕ) (row : WebhookDelivery) (outcome : ℕ × Option PostError) (w : WebhookState)
      → is_empty row.id ≡ false
      → lookup row.id w.deliveries ≡ some row
      → ports.max_attempts ≤ row.attempt + suc n
      → HasLeft ports row.id n (lookup row.id (settle ports row outcome w).deliveries)
  unfolding settle mark_delivered mark_failed schedule_retry mark_row_delivered mark_row_failed
      schedule_row_retry
  settle-HasLeft n row (status, none) w named h left =
      rw (named, lookup-update_delivery row.id _ w row h)
        (record {
          found = _;
          is_found = refl;
          same_id = refl;
          early = λ p. absurd (ground (arith, p));
          left = λ p. absurd (ground (arith, p));
        })
  settle-HasLeft n row (status, some e) w named h left =
      elim (Bool-cases (leb ports.max_attempts (suc row.attempt) || not e.transient)) [
        | inl over ↦
            rw (over, named, lookup-update_delivery row.id _ w row h)
              (record {
                found = _;
                is_found = refl;
                same_id = refl;
                early = λ p. absurd (ground (arith, p));
                left = λ p. absurd (ground (arith, p));
              })
        | inr again ↦
            rw (again, named, lookup-update_delivery row.id _ w row h)
              (record {
                found = _;
                is_found = refl;
                same_id = refl;
                early = λ p. ground arith;
                left = λ p. omega arith;
              })
      ]

  sweep_one-HasLeft :
      (webhook : Webhook) (id : String) (n : ℕ) (w : WebhookState)
      → is_empty id ≡ false
      → HasLeft ports id (suc n) (lookup id w.deliveries)
      → HasLeft ports id n (lookup id (sweep_one ports webhook id w).deliveries)
  unfolding sweep_one deliver
  sweep_one-HasLeft webhook id n w named l = elim (Bool-cases (is_pending l.found.status)) [
    | inl pending ↦
        let response = post (ports.respond w.requests webhook l.found) in
        let w' : WebhookState = record w { requests = suc w.requests } in
        let settled =
          settle-HasLeft n l.found response w'
            (subst (λ i. is_empty i ≡ false) (sym l.same_id) named)
            (subst (λ i. lookup i w.deliveries ≡ some l.found) (sym l.same_id) l.is_found)
            (l.left pending) in
        rw (l.is_found, pending)
          (subst (λ i. HasLeft ports i n (lookup i (settle ports l.found response w').deliveries))
            l.same_id settled)
    | inr done ↦
        rw (l.is_found, done)
          (record {
            found = l.found;
            is_found = l.is_found;
            same_id = l.same_id;
            early = λ p. absurd (ground (arith, p, done));
            left = λ p. absurd (ground (arith, p, done));
          })
  ]

  sweeps-HasLeft :
      (webhook : Webhook) (id : String) (n : ℕ) (w : WebhookState)
      → is_empty id ≡ false
      → HasLeft ports id n (lookup id w.deliveries)
      → HasLeft ports id 0 (lookup id (sweeps n ports webhook id w).deliveries)
  unfolding sweeps
  sweeps-HasLeft webhook id zero w named l = l
  sweeps-HasLeft webhook id (suc n) w named l =
      sweeps-HasLeft webhook id n (sweep_one ports webhook id w) named
        (sweep_one-HasLeft webhook id n w named l)

  -- Whatever the receivers answer, a stored delivery with fewer attempts than the maximum is no longer
  -- pending after as many sweeps, each of which delivers it if it is still pending: it was delivered
  -- or has failed for good.
  pub sweeps-settled :
      (webhook : Webhook) (row : WebhookDelivery) (w : WebhookState)
      → is_empty row.id ≡ false
      → lookup row.id w.deliveries ≡ some row
      → row.attempt < ports.max_attempts
      → (settled : WebhookDelivery) × (lookup row.id
            (sweeps ports.max_attempts ports webhook row.id w).deliveries
          ≡ some settled)
        × (is_pending settled.status ≡ false)
  sweeps-settled webhook row w named h early =
      let l = sweeps-HasLeft webhook row.id ports.max_attempts w named (record {
        found = row;
        is_found = h;
        same_id = refl;
        early = λ p. early;
        left = λ p. omega arith;
      }) in
      (
        l.found,
        l.is_found,
        elim (Bool-cases (is_pending l.found.status)) [
          | inl p ↦ let a = l.early p in let b = l.left p in absurd (omega arith)
          | inr done ↦ done
        ],
      )
