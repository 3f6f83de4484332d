-- ===== src/Webhook/Delivery.antt =====
-- Delivery, retry and the dead letter queue: the methods of `WebhookService` on one delivery.
use ghostbill.Prelude.{
  ℕ, suc, ◌+◌, Bool, true, false, not, Option, none, some, [], ◌∷◌, ◌++◌, ltb, leb, ◌==◌, ◌&&◌,
  ◌||◌, if◌then◌else◌, select, String, is_id, update_where, get_or,
}
use ghostbill.Model.{
  WebhookStatus, is_webhook_status, Result, ok, err, http_exception, Exec, pure, raise, ◌>>=◌, ◌>>◌,
  raise_if, modify, scalar_one_or_none, Merchant, WebhookDelivery, WebhookDeadLetter, DlqDetails,
  retry_not_found, retry_conflict, retry_invalid_state,
}
use ghostbill.Tor.{Network}
use ghostbill.Webhook.{calculate_next_retry, queue_webhook, configured}

abbrev pub delivery_has_id : ℕ → WebhookDelivery → Bool
delivery_has_id k d = d.id == k

abbrev pub put_delivery : WebhookDelivery → Exec (Unit {0})
put_delivery d =
    modify
      λ db. record db { deliveries = update_where (delivery_has_id d.id) (λ _. d) db.deliveries }

abbrev pub put_dead_letter : WebhookDeadLetter → Exec (Unit {0})
put_dead_letter e =
    modify
      λ db. record db { dead_letters = update_where (λ x. x.id == e.id) (λ _. e) db.dead_letters }

-- What the HTTP POST of a delivery ends with: a status code and a body, or an exception's text.
pub data HttpOutcome : Type 0 where
  response : ℕ → String → HttpOutcome
  http_error : String → HttpOutcome
  -- An exception that `attempt_delivery` does not catch, such as that of a malformed URL.
  other_error : HttpOutcome

-- `attempt_delivery`: whether the status code is from 200 to 299, and the delivery with what was answered.
-- Bodies are cut to 2048 characters in the source and kept whole here.
unfoldable pub attempt_delivery : HttpOutcome → WebhookDelivery → Result (WebhookDelivery × Bool)
attempt_delivery (response status_code text) d = ok (
  record d { response_code = some status_code; response_body = configured (some text) },
  leb 200 status_code && ltb status_code 300,
)
attempt_delivery (http_error text) d =
    ok (record d { response_code = none; response_body = some text }, false)
attempt_delivery other_error d = err http_exception

-- `failure_reason or delivery.response_body or "Max retries exceeded"`
abbrev pub last_error_of : WebhookDelivery → Option String → String
last_error_of d reason =
    get_or (configured reason) (get_or (configured d.response_body) "Max retries exceeded")

-- The dead letter of a delivery.
unfoldable pub dead_letter : ℕ → WebhookDelivery → Option String → WebhookDeadLetter
dead_letter id d reason = record {
  id = id;
  delivery_id = d.id;
  merchant_id = d.merchant_id;
  event_type = d.event_type;
  payload = record (d.payload) {
    dlq_details = some (record {
      attempt_count = some d.attempts;
      max_attempts = some d.max_attempts;
      failure_reason = configured reason;
      resolved_delivery_id = none;
    });
  };
  original_created_at = d.created_at;
  retry_count = 0;
  retry_delivery_id = none;
  last_retry_at = none;
  last_error = last_error_of d reason;
  resolved = false;
  resolved_at = none;
}

unfoldable pub dead_lettered : WebhookDelivery → WebhookDelivery
dead_lettered d = record d { status = WebhookStatus.dead_lettered; next_retry_at = none }

unfoldable pub move_to_dlq : WebhookDelivery → Option String → Exec (Unit {0})
unfolding dead_letter dead_lettered
move_to_dlq d reason = do
  put_delivery (dead_lettered d)
  λ db. (
    ok tt,
    record db {
      next_id = suc db.next_id;
      dead_letters = db.dead_letters ++ dead_letter db.next_id d reason ∷ [];
    },
  )

-- The delivery with one more attempt.
unfoldable pub attempted : ℕ → WebhookDelivery → WebhookDelivery
attempted now d = record d { attempts = d.attempts + 1; last_attempt_at = some now }

unfoldable pub process_delivery_result : ℕ → WebhookDelivery → Bool → Exec (Unit {0})
unfolding attempted move_to_dlq
process_delivery_result now delivery success =
    let d = attempted now delivery in
    if success
    then put_delivery (record d { status = WebhookStatus.delivered; next_retry_at = none })
    else if leb d.max_attempts d.attempts
    then move_to_dlq d none
    else put_delivery (record d { next_retry_at = calculate_next_retry now d.attempts })

abbrev pub is_delivery_of : ℕ → ℕ → WebhookDelivery → Bool
is_delivery_of merchant_id delivery_id d = d.id == delivery_id && d.merchant_id == merchant_id

abbrev pub retry_found : ℕ → Option WebhookDelivery → Exec WebhookDelivery
retry_found now none = raise retry_not_found
retry_found now (some d) = do
  raise_if (is_webhook_status d.status WebhookStatus.delivered) retry_conflict
  raise_if
      (not (
        is_webhook_status d.status WebhookStatus.failed
        || is_webhook_status d.status WebhookStatus.dead_lettered))
      retry_invalid_state
  put_delivery (record d { status = WebhookStatus.pending; attempts = 0; next_retry_at = some now })
  pure (record d { status = WebhookStatus.pending; attempts = 0; next_retry_at = some now })

unfoldable pub retry_delivery : ℕ → ℕ → ℕ → Exec WebhookDelivery
retry_delivery now merchant_id delivery_id = do
  found ←
      λ db. (scalar_one_or_none (select (is_delivery_of merchant_id delivery_id) db.deliveries), db)
  retry_found now found

abbrev pub retried : ℕ → WebhookDeadLetter → Option WebhookDelivery → Exec WebhookDelivery
retried now e none = raise retry_invalid_state
retried now e (some d) = do
  put_dead_letter (record e {
    retry_count = e.retry_count + 1;
    retry_delivery_id = some d.id;
    last_retry_at = some now;
  })
  pure d

unfoldable pub retry_dead_letter : Network → ℕ → Merchant → WebhookDeadLetter → Exec WebhookDelivery
retry_dead_letter net now merchant dlq_entry = do
  raise_if dlq_entry.resolved retry_conflict
  new_delivery ← queue_webhook net now merchant dlq_entry.event_type dlq_entry.payload none
  retried now dlq_entry new_delivery

-- `dict(payload.get("_dlq_details") or {})` with the id of the delivery that went through.
abbrev resolved_details : ℕ → Option DlqDetails → Option DlqDetails
resolved_details id none = some (record {
  attempt_count = none;
  max_attempts = none;
  failure_reason = none;
  resolved_delivery_id = some id;
})
resolved_details id (some details) = some (record details { resolved_delivery_id = some id })

abbrev pub awaits_delivery : WebhookDelivery → WebhookDeadLetter → Bool
awaits_delivery d e =
    is_id e.retry_delivery_id d.id && e.merchant_id == d.merchant_id && not e.resolved

abbrev pub resolve_entry : ℕ → WebhookDelivery → Option WebhookDeadLetter → Exec (Unit {0})
resolve_entry now d none = pure tt
resolve_entry now d (some e) = put_dead_letter (record e {
  resolved = true;
  resolved_at = some now;
  payload = record (e.payload) { dlq_details = resolved_details d.id (e.payload).dlq_details };
})

unfoldable pub mark_dlq_resolved_for_delivery : ℕ → WebhookDelivery → Exec (Unit {0})
mark_dlq_resolved_for_delivery now d = do
  entry ← λ db. (scalar_one_or_none (select (awaits_delivery d) db.dead_letters), db)
  resolve_entry now d entry
