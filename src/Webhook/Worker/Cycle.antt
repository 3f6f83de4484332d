-- ===== src/Webhook/Worker/Cycle.antt =====
-- A cycle of the worker and the schedule of the deliveries.
use ghostbill.Prelude.{
  ℕ, zero, suc, ◌≡◌, refl, inl, inr, Bool, true, false, Bool-cases, Option, none, some, List, [],
  ◌∷◌, All, arith, select, map, take, is_some, leb, ltb, ◌&&◌, sym, subst,
}
use ghostbill.Model.{
  Db, WebhookStatus, WebhookDelivery, WebhookDeadLetter, Merchant, Result, ok, err, bind_run,
  bind-ok, ◌>>=◌, ◌>>◌, when, pure, find_merchant, scalar_one_or_none, try_except,
}
use ghostbill.Webhook.{configured}
use ghostbill.Webhook.Delivery.{
  HttpOutcome, response, http_error, other_error, attempt_delivery, process_delivery_result,
  mark_dlq_resolved_for_delivery, resolve_entry, awaits_delivery, move_to_dlq, dead_lettered,
}
use ghostbill.Webhook.Worker.{
  deliver, deliver_for, work_through, worker_cycle, claim_pending_deliveries, is_due, order_due,
  insert_due, retry_time, claim, put_deliveries,
}
use ghostbill.Webhook.Schedule.{IsScheduled, put_keeps}
use ghostbill.Webhook.Deliveries.{process_delivery_result-IsScheduled}

-- What the worker holds: a scheduled delivery that is pending.
abbrev IsOpen : WebhookDelivery → Type 0
IsOpen d = IsScheduled d × (d.status ≡ WebhookStatus.pending)

abbrev Scheduled : Db → Type 0
Scheduled db = All IsScheduled db.deliveries

due_pending :
    (now : ℕ) (d : WebhookDelivery) → is_due now d ≡ true → d.status ≡ WebhookStatus.pending
due_pending now d h = ground arith

All-due :
    (now : ℕ) (ds : List WebhookDelivery) → All IsScheduled ds → All IsOpen (select (is_due now) ds)
All-due now [] h = tt
All-due now (d ∷ ds) (h, hs) = elim (Bool-cases (is_due now d)) [
  | inl due ↦ rw due ((h, due_pending now d due), All-due now ds hs)
  | inr other ↦ rw other (All-due now ds hs)
]

All-insert_due :
    (d : WebhookDelivery) (ds : List WebhookDelivery)
    → IsOpen d
    → All IsOpen ds
    → All IsOpen (insert_due d ds)
All-insert_due d [] h hs = (h, tt)
All-insert_due d (x ∷ ds) h (k, ks) = elim (Bool-cases (leb (retry_time d) (retry_time x))) [
  | inl first ↦ rw first (h, (k, ks))
  | inr later ↦ rw later (k, All-insert_due d ds h ks)
]

All-order_due : (ds : List WebhookDelivery) → All IsOpen ds → All IsOpen (order_due ds)
All-order_due [] h = tt
All-order_due (d ∷ ds) (h, hs) = All-insert_due d (order_due ds) h (All-order_due ds hs)

All-claimed :
    (now n : ℕ) (ds : List WebhookDelivery)
    → All IsOpen ds
    → All IsOpen (map (claim now) (take n ds))
All-claimed now zero ds h = tt
All-claimed now (suc n) [] h = tt
All-claimed now (suc n) (d ∷ ds) (h, hs) = (h, All-claimed now n ds hs)

put_deliveries-Scheduled :
    (ds : List WebhookDelivery) (db : Db)
    → All IsOpen ds
    → Scheduled db
    → Scheduled (put_deliveries ds db).1
put_deliveries-Scheduled [] db h s = s
put_deliveries-Scheduled (d ∷ ds) db (h, hs) s =
    put_deliveries-Scheduled ds _ hs (put_keeps db d s h.0)

put_deliveries-ok :
    (ds : List WebhookDelivery) (db : Db) → put_deliveries ds db ≡ (ok tt, (put_deliveries ds db).1)
put_deliveries-ok [] db = refl
put_deliveries-ok (d ∷ ds) db = put_deliveries-ok ds _

resolved-Scheduled :
    (now : ℕ) (d : WebhookDelivery) (db : Db)
    → Scheduled db
    → Scheduled (mark_dlq_resolved_for_delivery now d db).1
unfolding mark_dlq_resolved_for_delivery
resolved-Scheduled now d db s =
    bind_run (λ out. Scheduled out.1)
      (λ t. (scalar_one_or_none (select (awaits_delivery d) t.dead_letters), t))
      (resolve_entry now d) db (λ e failed. s) (λ found passed. entry found)
  where
    entry : (found : Option WebhookDeadLetter) → Scheduled (resolve_entry now d found db).1
    entry none = s
    entry (some e) = s

moved-Scheduled :
    (d : WebhookDelivery) (reason : Option _) (db : Db)
    → IsScheduled d
    → Scheduled db
    → Scheduled (move_to_dlq d reason db).1
unfolding move_to_dlq dead_lettered
moved-Scheduled d reason db h s = put_keeps db (dead_lettered d) s (h.0, inr (λ e. cc, refl))

-- After an answer or an error that is caught.
settled-Scheduled :
    (now : ℕ) (answered : WebhookDelivery) (success : Bool) (db : Db)
    → IsOpen answered
    → Scheduled db
    → Scheduled
        ((process_delivery_result now answered success
            >> when success (mark_dlq_resolved_for_delivery now answered))
          db).1
settled-Scheduled now answered success db o s =
    let tried = process_delivery_result-IsScheduled now answered success db s o.0 o.1 in
    bind_run (λ out. Scheduled out.1) (process_delivery_result now answered success)
      (λ _. when success (mark_dlq_resolved_for_delivery now answered)) db (λ e failed. tried)
      (λ x passed. after success _ tried)
  where
    after :
        (success : Bool) (t : Db)
        → Scheduled t
        → Scheduled (when success (mark_dlq_resolved_for_delivery now answered) t).1
    after true t k = resolved-Scheduled now answered t k
    after false t k = k

deliver-Scheduled :
    (now : ℕ) (http : HttpOutcome) (d : WebhookDelivery) (db : Db)
    → IsOpen d
    → Scheduled db
    → Scheduled (deliver now http d db).1
unfolding deliver attempt_delivery
deliver-Scheduled now (response code text) d db h s =
    settled-Scheduled now
      (record d { response_code = some code; response_body = configured (some text) })
      (leb 200 code && ltb code 300) db h s
deliver-Scheduled now (http_error text) d db h s =
    settled-Scheduled now (record d { response_code = none; response_body = some text }) false db h
      s
deliver-Scheduled now other_error d db h s = s

delivered_for-Scheduled :
    (now : ℕ) (http : HttpOutcome) (d : WebhookDelivery) (merchant : Option Merchant) (db : Db)
    → IsOpen d
    → Scheduled db
    → Scheduled (deliver_for now http d merchant db).1
delivered_for-Scheduled now http d none db h s = moved-Scheduled d _ db h.0 s
delivered_for-Scheduled now http d (some merchant) db h s =
    elim (Bool-cases (is_some (configured merchant.webhook_secret))) [
      | inl secret ↦ rw secret (deliver-Scheduled now http d db h s)
      | inr missing ↦ rw missing (moved-Scheduled d _ db h.0 s)
    ]

handled-Scheduled :
    (now : ℕ) (http : HttpOutcome) (d : WebhookDelivery) (db : Db)
    → IsOpen d
    → Scheduled db
    → Scheduled ((find_merchant d.merchant_id >>= deliver_for now http d) db).1
handled-Scheduled now http d db h s =
    bind_run (λ out. Scheduled out.1) (find_merchant d.merchant_id) (deliver_for now http d) db
      (λ e failed. s) (λ merchant passed. delivered_for-Scheduled now http d merchant db h s)

caught-Scheduled :
    (r : Result (Unit {0})) (db : Db)
    → Scheduled db
    → Scheduled (try_except (λ _. (r, db)) (pure tt) db).1
caught-Scheduled (ok x) db s = s
caught-Scheduled (err e) db s = s

work_through-Scheduled :
    (now : ℕ) (http : WebhookDelivery → HttpOutcome) (ds : List WebhookDelivery) (db : Db)
    → All IsOpen ds
    → Scheduled db
    → Scheduled (work_through now http ds db).1
unfolding work_through
work_through-Scheduled now http [] db h s = s
work_through-Scheduled now http (d ∷ ds) db (h, hs) s =
    let one = find_merchant d.merchant_id >>= deliver_for now (http d) d in
    let k = caught-Scheduled (one db).0 (one db).1 (handled-Scheduled now (http d) d db h s) in
    bind_run (λ out. Scheduled out.1) (try_except one (pure tt)) (λ _. work_through now http ds) db
      (λ e failed. k) (λ x passed. work_through-Scheduled now http ds _ hs k)

-- Where every delivery has the service's bound of seven attempts, every pending one has attempts left and
-- a time for the next one, and no other has a time, a cycle of the worker keeps all that, whatever the
-- merchants' servers answer.
pub worker_cycle-IsScheduled :
    (now : ℕ) (http : WebhookDelivery → HttpOutcome) (db : Db)
    → All IsScheduled db.deliveries
    → All IsScheduled (worker_cycle now http db).1.deliveries
unfolding worker_cycle claim_pending_deliveries
worker_cycle-IsScheduled now http db s =
    let due = map (claim now) (take 50 (order_due (select (is_due now) db.deliveries))) in
    let open_ones = All-claimed now 50 _ (All-order_due _ (All-due now db.deliveries s)) in
    let claimed = bind-ok (put_deliveries due) (λ _. pure due) db (put_deliveries-ok due db) in
    let run = bind-ok (put_deliveries due >> pure due) (work_through now http) db claimed in
    subst (λ out. Scheduled out.1) (sym run)
      (work_through-Scheduled now http due _ open_ones
        (put_deliveries-Scheduled due db open_ones s))
