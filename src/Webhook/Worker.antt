-- ===== src/Webhook/Worker.antt =====
-- The worker: `claim_pending_deliveries` of backend/app/services/webhook_service.py, and a cycle of
-- `webhook_worker_loop` of backend/app/tasks/webhook_worker.py.
pub mod Cycle
use ghostbill.Prelude.{
  ℕ, suc, ◌+◌, Bool, true, false, not, Option, none, some, List, [], ◌∷◌, ◌++◌, ltb, leb, ◌==◌,
  ◌&&◌, ◌||◌, if◌then◌else◌, select, String, is_id, update_where, get_or, is_some, map, take,
}
use ghostbill.Model.{
  WebhookStatus, is_webhook_status, ok, Exec, pure, raise, lift, gets, ◌>>=◌, ◌>>◌, when, raise_if,
  modify, try_except, scalar_one_or_none, find_merchant, Merchant, WebhookDelivery,
  WebhookDeadLetter, DlqDetails, retry_not_found, retry_conflict, retry_invalid_state,
}
use ghostbill.Tor.{Network}
use ghostbill.Webhook.{calculate_next_retry, queue_webhook, configured}
use ghostbill.Webhook.Delivery.{
  HttpOutcome, put_delivery, attempt_delivery, process_delivery_result,
  mark_dlq_resolved_for_delivery, move_to_dlq,
}

-- `status == pending and next_retry_at <= now`
abbrev pub is_due : ℕ → WebhookDelivery → Bool
is_due now d =
    is_webhook_status d.status WebhookStatus.pending
    && (elim d.next_retry_at [ none ↦ false | some t ↦ leb t now ])

abbrev pub retry_time : WebhookDelivery → ℕ
retry_time d = get_or d.next_retry_at 0

-- `ORDER BY next_retry_at ASC`
abbrev insert_due : WebhookDelivery → List WebhookDelivery → List WebhookDelivery
insert_due d [] = d ∷ []
insert_due d (x ∷ xs) =
    if leb (retry_time d) (retry_time x) then d ∷ x ∷ xs else x ∷ insert_due d xs

abbrev order_due : List WebhookDelivery → List WebhookDelivery
order_due [] = []
order_due (d ∷ ds) = insert_due d (order_due ds)

abbrev claim : ℕ → WebhookDelivery → WebhookDelivery
claim now d = record d { last_attempt_at = some now }

abbrev put_deliveries : List WebhookDelivery → Exec (Unit {0})
put_deliveries [] = pure tt
put_deliveries (d ∷ ds) = put_delivery d >> put_deliveries ds

-- `claim_pending_deliveries`; the row locks keep other workers away, so this worker is alone here.
unfoldable pub claim_pending_deliveries : ℕ → ℕ → Exec (List WebhookDelivery)
claim_pending_deliveries now limit = do
  due ← gets (λ db. map (claim now) (take limit (order_due (select (is_due now) db.deliveries))))
  put_deliveries due
  pure due

-- The worker's handling of one delivery whose merchant is there and has a secret.
unfoldable pub deliver : ℕ → HttpOutcome → WebhookDelivery → Exec (Unit {0})
unfolding attempt_delivery process_delivery_result mark_dlq_resolved_for_delivery
deliver now outcome d = do
  answered ← lift (attempt_delivery outcome d)
  process_delivery_result now answered.0 answered.1
  when answered.1 (mark_dlq_resolved_for_delivery now answered.0)

abbrev pub deliver_for : ℕ → HttpOutcome → WebhookDelivery → Option Merchant → Exec (Unit {0})
deliver_for now outcome d none = move_to_dlq d (some "merchant_not_found")
deliver_for now outcome d (some merchant) =
    if is_some (configured merchant.webhook_secret)
    then deliver now outcome d
    else move_to_dlq d (some "webhook_secret_missing")

-- The worker's loop: an exception of one delivery is logged, and the next one follows. `http` is what the
-- POST of a delivery answers.
unfoldable pub work_through :
    ℕ → (WebhookDelivery → HttpOutcome) → List WebhookDelivery → Exec (Unit {0})
unfolding deliver move_to_dlq
work_through now http [] = pure tt
work_through now http (d ∷ ds) = do
  try_except (find_merchant d.merchant_id >>= deliver_for now (http d) d) (pure tt)
  work_through now http ds

-- One cycle of `webhook_worker_loop`.
unfoldable pub worker_cycle : ℕ → (WebhookDelivery → HttpOutcome) → Exec (Unit {0})
unfolding claim_pending_deliveries work_through
worker_cycle now http = do
  deliveries ← claim_pending_deliveries now 50
  work_through now http deliveries
