-- ===== src/Webhook/Deliveries.antt =====
-- What the operations on deliveries do to the table: the schedule is kept, and failures end in the
-- dead letter queue.
use ghostbill.Prelude.{
  ℕ, ◌+◌, ◌≤◌, ◌<◌, ◌≡◌, refl, inl, inr, Bool, true, false, Bool-cases, leb, ◌||◌, Option, none,
  some, List, [], ◌∷◌, ◌++◌, All, arith, String, get_or, update_where, select,
}
use ghostbill.Prelude.Keys.{All-append_one, All-in, select-In}
use ghostbill.Model.{
  Db, WebhookStatus, WebhookDelivery, WebhookDeadLetter, Merchant, Payload, ok, bind_run,
  scalar-some, is_webhook_status, seconds, scalar_one_or_none,
}
use ghostbill.Tor.{Network, validate_webhook_url}
use ghostbill.Webhook.{
  calculate_next_retry, max_attempts, queue_webhook, configured, new_delivery, add_delivery,
  queue_to, is_event, is_rejected,
}
use ghostbill.Webhook.Delivery.{
  process_delivery_result, attempted, move_to_dlq, dead_lettered, dead_letter, retry_delivery,
  retry_found, is_delivery_of, delivery_has_id,
}
use ghostbill.Webhook.Schedule.{IsScheduled, calculate_next_retry_total, put_keeps}

-- The rows after one attempt, by its outcome and by what the row has left.
next_row-IsScheduled :
    (now : ℕ) (d : WebhookDelivery)
    → IsScheduled d
    → d.status ≡ WebhookStatus.pending
    → leb d.max_attempts (d.attempts + 1) ≡ false
    → IsScheduled
        (record (attempted now d) { next_retry_at = calculate_next_retry now (d.attempts + 1) })
unfolding attempted
next_row-IsScheduled now d (cap, rest) waiting more =
    let (t, e, later) = calculate_next_retry_total now (d.attempts + 1) (ground arith) in
    (cap, inl (waiting, ground arith, λ missing. cc))

-- No delivery is lost: the result of an attempt leaves every pending delivery with attempts left and
-- a time for the next one, and every other without a time, if the attempted one was pending.
pub process_delivery_result-IsScheduled :
    (now : ℕ) (d : WebhookDelivery) (success : Bool) (db : Db)
    → All IsScheduled db.deliveries
    → IsScheduled d
    → d.status ≡ WebhookStatus.pending
    → All IsScheduled (process_delivery_result now d success db).1.deliveries
unfolding process_delivery_result attempted move_to_dlq dead_lettered
process_delivery_result-IsScheduled now d true db all one waiting =
    put_keeps db
      (record d {
        attempts = d.attempts + 1;
        last_attempt_at = some now;
        status = WebhookStatus.delivered;
        next_retry_at = none;
      })
      all (one.0, inr (λ e. cc, refl))
process_delivery_result-IsScheduled now d false db all one waiting =
    elim (Bool-cases (leb d.max_attempts (d.attempts + 1))) [
      | inl spent ↦
          unfold dead_lettered move_to_dlq in
          rw spent (put_keeps db (dead_lettered (attempted now d)) all (one.0, inr (λ e. cc, refl)))
      | inr more ↦ rw more (put_keeps db _ all (next_row-IsScheduled now d one waiting more))
    ]

-- The row of a delivery is replaced.
abbrev pub replaced : Db → WebhookDelivery → WebhookDelivery → List WebhookDelivery
replaced db d row = update_where (delivery_has_id d.id) (λ _. row) db.deliveries

-- The dead letter of a delivery that has been given up, with the answer to its last attempt.
pub record IsLetter (id : ℕ) (d : WebhookDelivery) (e : WebhookDeadLetter) : Type 0 where
  pub numbered : e.id ≡ id
  pub delivery : e.delivery_id ≡ d.id
  pub merchant : e.merchant_id ≡ d.merchant_id
  pub event : e.event_type ≡ d.event_type
  pub body : (e.payload).body ≡ (d.payload).body
  pub details :
      (e.payload).dlq_details
      ≡ some (record {
        attempt_count = some d.attempts;
        max_attempts = some d.max_attempts;
        failure_reason = none;
        resolved_delivery_id = none;
      })
  pub reason : e.last_error ≡ get_or (configured d.response_body) "Max retries exceeded"
  pub open_letter : e.resolved ≡ false
  pub never_retried : (e.retry_count ≡ 0) × (e.retry_delivery_id ≡ none)

dead_letter-IsLetter :
    (now id : ℕ) (d : WebhookDelivery)
    → IsLetter id (attempted now d) (dead_letter id (attempted now d) none)
unfolding dead_letter attempted
dead_letter-IsLetter now id d = record {
  numbered = refl;
  delivery = refl;
  merchant = refl;
  event = refl;
  body = refl;
  details = refl;
  reason = refl;
  open_letter = refl;
  never_retried = (refl, refl);
}

-- What the result of an attempt does to the tables, for a delivery with the service's bound of seven
-- attempts: after a success the row is delivered; after a failure that is not the last the row waits
-- for a next attempt that is at least a minute away; after the seventh failure the row is
-- dead-lettered, and one dead letter is added that names the delivery and its merchant and event, its
-- attempts and the reason, and is not resolved. In each case the attempt is counted and no other row
-- changes, and nothing is raised.
pub process_delivery_result_lem :
    (now : ℕ) (d : WebhookDelivery) (success : Bool) (db : Db)
    → d.max_attempts ≡ max_attempts
    → let out = process_delivery_result now d success db in
      let tried = record d { attempts = d.attempts + 1; last_attempt_at = some now } in
      (out.0 ≡ ok tt)
      × (success ≡ true
          → (out.1.dead_letters ≡ db.dead_letters)
            × (out.1.deliveries
                ≡ replaced db d
                    (record tried { status = WebhookStatus.delivered; next_retry_at = none })))
      × (success ≡ false
          → d.attempts + 1 < max_attempts
          → (out.1.dead_letters ≡ db.dead_letters)
            × ((t : ℕ) × (now + seconds 60 ≤ t)
                × (out.1.deliveries ≡ replaced db d (record tried { next_retry_at = some t }))))
      × (success ≡ false
          → max_attempts ≤ d.attempts + 1
          → ((letter : WebhookDeadLetter) × IsLetter db.next_id tried letter
              × (out.1.dead_letters ≡ db.dead_letters ++ letter ∷ []))
            × (out.1.deliveries
                ≡ replaced db d
                    (record tried { status = WebhookStatus.dead_lettered; next_retry_at = none })))
unfolding process_delivery_result move_to_dlq attempted dead_lettered dead_letter
process_delivery_result_lem now d true db cap = (refl, λ _. (refl, refl), λ e. cc, λ e. cc)
process_delivery_result_lem now d false db cap =
    elim (Bool-cases (leb d.max_attempts (d.attempts + 1))) [
      | inl spent ↦ rw spent (
        refl,
        λ e. cc,
        λ _ more. absurd (ground arith),
        λ _ _. (
          (
            dead_letter db.next_id (attempted now d) none,
            dead_letter-IsLetter now db.next_id d,
            refl,
          ),
          refl,
        ),
      )
      | inr more ↦
          let (t, e, later) = calculate_next_retry_total now (d.attempts + 1) (ground arith) in
          rw more (refl, λ e. cc, λ _ _. (refl, (t, later, rw e)), λ _ spent. absurd (ground arith))
    ]

module _ (now : ℕ) (db : Db) (all : All IsScheduled db.deliveries) where
  retry_found-IsScheduled :
      (d : WebhookDelivery)
      → IsScheduled d
      → All IsScheduled (retry_found now (some d) db).1.deliveries
  retry_found-IsScheduled d one =
      let row = record d {
        status = WebhookStatus.pending;
        attempts = 0;
        next_retry_at = some now;
      } in
      elim (Bool-cases (is_webhook_status d.status WebhookStatus.delivered)) [
        | inl delivered ↦ rw delivered all
        | inr other ↦
            elim (Bool-cases (
              is_webhook_status d.status WebhookStatus.failed
              || is_webhook_status d.status WebhookStatus.dead_lettered)) [
                | inl given_up ↦
                    rw (other, given_up)
                      (put_keeps db row all (one.0, inl (refl, omega arith, λ missing. cc)))
                | inr waiting ↦ rw (other, waiting) all
              ]
      ]

  found_row :
      (merchant_id delivery_id : ℕ) (found : Option WebhookDelivery)
      → scalar_one_or_none (select (is_delivery_of merchant_id delivery_id) db.deliveries)
        ≡ ok found
      → All IsScheduled (retry_found now found db).1.deliveries
  found_row merchant_id delivery_id none e = all
  found_row merchant_id delivery_id (some d) e = retry_found-IsScheduled d (
      All-in IsScheduled
        (select-In (is_delivery_of merchant_id delivery_id) db.deliveries (scalar-some _ d e)) all)

-- A merchant's retry keeps the schedule of every delivery, whether it succeeds or is refused.
retry_delivery-IsScheduled :
    (now merchant_id delivery_id : ℕ) (db : Db)
    → All IsScheduled db.deliveries
    → All IsScheduled (retry_delivery now merchant_id delivery_id db).1.deliveries
unfolding retry_delivery
retry_delivery-IsScheduled now merchant_id delivery_id db all =
    bind_run (λ out. All IsScheduled out.1.deliveries)
      (λ d. (scalar_one_or_none (select (is_delivery_of merchant_id delivery_id) d.deliveries), d))
      (retry_found now) db (λ e failed. all) (found_row now db all merchant_id delivery_id)

queue_to-IsScheduled :
    (net : Network) (now : ℕ) (merchant : Merchant) (event_type : String) (payload : Payload)
    (invoice_id : Option ℕ) (db : Db)
    → All IsScheduled db.deliveries
    → (url secret : Option String)
    → All IsScheduled
        (queue_to net now merchant event_type payload invoice_id url secret db).1.deliveries
unfolding new_delivery add_delivery
queue_to-IsScheduled net now merchant event_type payload invoice_id db all none secret = all
queue_to-IsScheduled net now merchant event_type payload invoice_id db all (some url) none = all
queue_to-IsScheduled net now merchant event_type payload invoice_id db all (some url)
      (some secret) =
    elim (Bool-cases (is_rejected (validate_webhook_url net url))) [
      | inl rejected ↦ rw rejected all
      | inr allowed ↦ rw allowed (
          All-append_one IsScheduled db.deliveries
            (new_delivery now db.next_id merchant url event_type payload invoice_id) all
            (refl, inl (refl, omega arith, λ missing. cc)))
    ]

-- A queued webhook keeps the schedule: if a row is added it is due at once with all its attempts.
queue_webhook-IsScheduled :
    (net : Network) (now : ℕ) (merchant : Merchant) (event_type : String) (payload : Payload)
    (invoice_id : Option ℕ) (db : Db)
    → All IsScheduled db.deliveries
    → All IsScheduled (queue_webhook net now merchant event_type payload invoice_id db).1.deliveries
unfolding queue_webhook
queue_webhook-IsScheduled net now merchant event_type payload invoice_id db all =
    elim (Bool-cases (is_event event_type)) [
      | inr unknown ↦ rw unknown all
      | inl known ↦ rw known (
          queue_to-IsScheduled net now merchant event_type payload invoice_id db all
            (configured merchant.webhook_url) (configured merchant.webhook_secret))
    ]
