-- ===== src/Webhook/Schedule.antt =====
-- The retry schedule: `calculate_next_retry`.
use ghostbill.Prelude.{
  ℕ, zero, suc, ◌+◌, ◌≤◌, ◌<◌, ◌≡◌, refl, ◌≢◌, ◌⊎◌, false, none, some, All, arith, update_where,
}
use ghostbill.Prelude.Keys.{All-map, All-update_where}
use ghostbill.Model.{Db, WebhookStatus, WebhookDelivery, seconds}
use ghostbill.Webhook.{calculate_next_retry, max_attempts}
use ghostbill.Webhook.Delivery.{delivery_has_id}

-- What every delivery in the table keeps to: a pending one has attempts left and a time for the next,
-- and any other has none.
abbrev pub IsScheduled : WebhookDelivery → Type 0
IsScheduled d =
    (d.max_attempts ≡ max_attempts)
    × (((d.status ≡ WebhookStatus.pending) × (d.attempts < max_attempts) × (d.next_retry_at ≢ none))
        ⊎ ((d.status ≢ WebhookStatus.pending) × (d.next_retry_at ≡ none)))

-- With fewer than seven attempts made there is a time for the next one, at least a minute after now.
pub calculate_next_retry_total :
    (now n : ℕ)
    → n < max_attempts
    → (t : ℕ) × (calculate_next_retry now n ≡ some t) × (now + seconds 60 ≤ t)
unfolding calculate_next_retry
calculate_next_retry_total now zero h = (now + seconds 86400, refl, omega arith)
calculate_next_retry_total now (suc zero) h = (now + seconds 60, refl, omega arith)
calculate_next_retry_total now (suc (suc zero)) h = (now + seconds 300, refl, omega arith)
calculate_next_retry_total now (suc (suc (suc zero))) h = (now + seconds 1800, refl, omega arith)
calculate_next_retry_total now (suc (suc (suc (suc zero)))) h =
    (now + seconds 7200, refl, omega arith)
calculate_next_retry_total now (suc (suc (suc (suc (suc zero))))) h =
    (now + seconds 43200, refl, omega arith)
calculate_next_retry_total now (suc (suc (suc (suc (suc (suc zero)))))) h =
    (now + seconds 86400, refl, omega arith)
calculate_next_retry_total now (suc (suc (suc (suc (suc (suc (suc n))))))) h = absurd (omega arith)

-- A write keeps the schedule of all rows if the new row is scheduled.
pub put_keeps :
    (db : Db) (d : WebhookDelivery)
    → All IsScheduled db.deliveries
    → IsScheduled d
    → All IsScheduled (update_where (delivery_has_id d.id) (λ _. d) db.deliveries)
put_keeps db d all one =
    All-update_where IsScheduled (delivery_has_id d.id) db.deliveries d
      (All-map IsScheduled (λ x. delivery_has_id d.id x ≡ false → IsScheduled x) db.deliveries
        (λ x h _. h) all)
      one
