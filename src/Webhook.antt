-- ===== src/Webhook.antt =====
-- Webhooks: the event registry and the retry schedule of backend/app/services/webhook_payloads.py, and
-- `WebhookService` of backend/app/services/webhook_service.py. What an HTTP POST answers is a parameter.
pub mod Delivery
pub mod Schedule
pub mod Deliveries
pub mod Queueing
pub mod Worker
use text.Mathlib.Text.{◌==◌ as str_eq, starts_with}
use ghostbill.Prelude.{
  ℕ, zero, suc, ◌+◌, ◌-◌, Bool, true, false, not, Option, none, some, List, [], ◌∷◌, ◌++◌, ltb, leb,
  ◌==◌, ◌&&◌, if◌then◌else◌, select, any, length, String, is_id, update_where, get_or,
}
use ghostbill.Model.{
  WebhookStatus, is_webhook_status, Result, ok, err, Exec, pure, raise, gets, lift, ◌>>=◌, ◌>>◌,
  when, raise_if, modify, scalar_one_or_none, find_merchant, seconds, Db, Merchant, Invoice,
  Payment, Subscription, WebhookDelivery, WebhookDeadLetter, Payload, PayloadBody, payment_payload,
  invoice_payload, subscription_payload, DlqDetails, value_error, retry_not_found, retry_conflict,
  retry_invalid_state,
}
use ghostbill.Tor.{Network, UrlError, validate_webhook_url}

-- `MAX_ATTEMPTS` and `RETRY_DELAYS`
abbrev pub max_attempts : ℕ
max_attempts = 7

abbrev pub retry_delays : List ℕ
retry_delays = 60 ∷ 300 ∷ 1800 ∷ 7200 ∷ 43200 ∷ 86400 ∷ []

abbrev pub valid_events : List String
valid_events =
    "payment.detected" ∷ "payment.confirmed" ∷ "payment.orphaned" ∷ "invoice.paid"
    ∷ "invoice.expired" ∷ "invoice.partially_paid" ∷ "invoice.overpaid" ∷ "invoice.late_paid"
    ∷ "invoice.exception_payment" ∷ "invoice.reverted" ∷ "subscription.created"
    ∷ "subscription.renewed" ∷ "subscription.past_due" ∷ "subscription.cancelled"
    ∷ "subscription.payment_confirmed" ∷ "subscription.updated" ∷ "subscription.paused"
    ∷ "subscription.resumed" ∷ "subscription.expired" ∷ "subscription.trial_started"
    ∷ "subscription.trial_ended" ∷ "subscription.prepaid" ∷ []

abbrev pub nth : List ℕ → ℕ → Option ℕ
nth [] i = none
nth (x ∷ xs) zero = some x
nth (x ∷ xs) (suc i) = nth xs i

-- `RETRY_DELAYS[attempt_count - 1]` from now, or none past the end. The index 0 - 1 is Python's last.
unfoldable pub calculate_next_retry : ℕ → ℕ → Option ℕ
calculate_next_retry now zero = some (now + seconds 86400)
calculate_next_retry now (suc idx) = elim (nth retry_delays idx) [
  | none ↦ none
  | some delay ↦ some (now + seconds delay)
]

abbrev pub is_event : String → Bool
is_event event_type = any (str_eq event_type) valid_events

abbrev is_rejected : Option UrlError → Bool
is_rejected none = false
is_rejected (some e) = true

-- The row that `queue_webhook` adds.
unfoldable pub new_delivery :
    ℕ → ℕ → Merchant → String → String → Payload → Option ℕ → WebhookDelivery
new_delivery now id merchant url event_type payload invoice_id = record {
  id = id;
  merchant_id = merchant.id;
  invoice_id = invoice_id;
  event_type = event_type;
  payload = payload;
  url = url;
  status = WebhookStatus.pending;
  attempts = 0;
  max_attempts = max_attempts;
  last_attempt_at = none;
  next_retry_at = some now;
  response_code = none;
  response_body = none;
  created_at = now;
}

add_delivery : WebhookDelivery → Exec (Option WebhookDelivery)
add_delivery d db =
    (ok (some d), record db { next_id = suc db.next_id; deliveries = db.deliveries ++ d ∷ [] })

-- A URL or secret that is empty text is like one that is missing.
abbrev configured : Option String → Option String
configured none = none
configured (some s) = if str_eq s "" then none else some s

-- The payload of one of `dispatch_events`' events.
unfoldable pub event_body : String → Invoice → Option Payment → PayloadBody
event_body event_type invoice none = invoice_payload invoice
event_body event_type invoice (some payment) =
    if starts_with event_type "payment."
    then payment_payload payment invoice
    else invoice_payload invoice

module _ (net : Network) where
  -- `queue_webhook` for a merchant with a URL and a secret.
  abbrev queue_to :
      ℕ
      → Merchant
      → String
      → Payload
      → Option ℕ
      → Option String
      → Option String
      → Exec (Option WebhookDelivery)
  queue_to now merchant event_type payload invoice_id none secret = pure none
  queue_to now merchant event_type payload invoice_id (some url) none = pure none
  queue_to now merchant event_type payload invoice_id (some url) (some secret) =
      if is_rejected (validate_webhook_url net url) then pure none else λ db.
      add_delivery (new_delivery now db.next_id merchant url event_type payload invoice_id) db

  unfoldable pub queue_webhook :
      ℕ → Merchant → String → Payload → Option ℕ → Exec (Option WebhookDelivery)
  unfolding new_delivery add_delivery
  queue_webhook now merchant event_type payload invoice_id =
      if not (is_event event_type)
      then raise value_error
      else queue_to now merchant event_type payload invoice_id (configured merchant.webhook_url)
          (configured merchant.webhook_secret)

  unfoldable pub dispatch_events :
      ℕ → List String → Merchant → Invoice → Option Payment → Exec (List WebhookDelivery)
  unfolding event_body
  dispatch_events now [] merchant invoice payment = pure []
  dispatch_events now (event_type ∷ events) merchant invoice payment = do
    delivery ←
        queue_webhook now merchant event_type
          (record {
            event = event_type;
            timestamp = now;
            body = event_body event_type invoice payment;
            dlq_details = none;
          })
          (some invoice.id)
    deliveries ← dispatch_events now events merchant invoice payment
    pure (elim delivery [ none ↦ deliveries | some d ↦ d ∷ deliveries ])

  abbrev queue_for :
      ℕ
      → String
      → Subscription
      → Option ℕ
      → Option String
      → Option Merchant
      → Exec (Option WebhookDelivery)
  queue_for now event_type subscription invoice_id reason none = pure none
  queue_for now event_type subscription invoice_id reason (some merchant) =
      queue_webhook now merchant event_type
        (record {
          event = event_type;
          timestamp = now;
          body = subscription_payload subscription invoice_id reason;
          dlq_details = none;
        })
        none

  unfoldable pub dispatch_subscription_event :
      ℕ → String → Subscription → Option ℕ → Option String → Exec (Option WebhookDelivery)
  dispatch_subscription_event now event_type subscription invoice_id reason = do
    merchant ← find_merchant subscription.merchant_id
    queue_for now event_type subscription invoice_id reason merchant
