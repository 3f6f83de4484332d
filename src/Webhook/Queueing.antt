-- ===== src/Webhook/Queueing.antt =====
-- Queueing webhooks, and the tables of invoices and payments.
use ghostbill.Prelude.{
  ℕ, ◌≤◌, ◌≡◌, refl, ◌∙◌, Bool-cases, inl, inr, Option, none, some, List, [], ◌∷◌, String, arith,
}
use ghostbill.Model.{
  Subscription, find_merchant, Db, Merchant, Invoice, Payment, Payload, Exec, bind_run,
  WebhookDelivery, pure, ◌>>=◌,
}
use ghostbill.Tor.{Network, validate_webhook_url}
use ghostbill.Webhook.{
  queue_webhook, dispatch_events, dispatch_subscription_event, queue_for, configured, add_delivery,
  queue_to, is_event, is_rejected, event_body,
}

-- What a run that writes webhooks only leaves as it was.
pub record IsKept (db db' : Db) : Type 0 where
  pub invoices : db'.invoices ≡ db.invoices
  pub payments : db'.payments ≡ db.payments
  pub addresses : db'.addresses ≡ db.addresses
  pub subscriptions : db'.subscriptions ≡ db.subscriptions
  pub next_id : db.next_id ≤ db'.next_id

pub IsKept-refl : (db : Db) → IsKept db db
IsKept-refl db = record {
  invoices = refl;
  payments = refl;
  addresses = refl;
  subscriptions = refl;
  next_id = omega arith;
}

pub IsKept-trans : {a b c : Db} → IsKept a b → IsKept b c → IsKept a c
IsKept-trans {a} {b} {c} h k = record {
  invoices = k.invoices ∙ h.invoices;
  payments = k.payments ∙ h.payments;
  addresses = k.addresses ∙ h.addresses;
  subscriptions = k.subscriptions ∙ h.subscriptions;
  next_id = omega (arith, h.next_id, k.next_id);
}

module _ (net : Network) (now : ℕ) (merchant : Merchant) where
  queue_to-IsKept :
      (event_type : String) (payload : Payload) (invoice_id : Option ℕ) (db : Db)
      (url secret : Option String)
      → IsKept db (queue_to net now merchant event_type payload invoice_id url secret db).1
  unfolding add_delivery
  queue_to-IsKept event_type payload invoice_id db none secret = IsKept-refl db
  queue_to-IsKept event_type payload invoice_id db (some url) none = IsKept-refl db
  queue_to-IsKept event_type payload invoice_id db (some url) (some secret) =
      elim (Bool-cases (is_rejected (validate_webhook_url net url))) [
        | inl rejected ↦ rw rejected (IsKept-refl db)
        | inr allowed ↦ rw allowed (record {
          invoices = refl;
          payments = refl;
          addresses = refl;
          subscriptions = refl;
          next_id = omega arith;
        })
      ]

  pub queue_webhook-IsKept :
      (event_type : String) (payload : Payload) (invoice_id : Option ℕ) (db : Db)
      → IsKept db (queue_webhook net now merchant event_type payload invoice_id db).1
  unfolding queue_webhook
  queue_webhook-IsKept event_type payload invoice_id db = elim (Bool-cases (is_event event_type)) [
    | inr unknown ↦ rw unknown (IsKept-refl db)
    | inl known ↦ rw known (
        queue_to-IsKept event_type payload invoice_id db (configured merchant.webhook_url)
          (configured merchant.webhook_secret))
  ]

  pub dispatch_events-IsKept :
      (events : List String) (invoice : Invoice) (payment : Option Payment) (db : Db)
      → IsKept db (dispatch_events net now events merchant invoice payment db).1
  unfolding dispatch_events
  dispatch_events-IsKept [] invoice payment db = IsKept-refl db
  dispatch_events-IsKept (e ∷ events) invoice payment db =
      let payload : Payload = record {
        event = e;
        timestamp = now;
        body = event_body e invoice payment;
        dlq_details = none;
      } in
      let queued = queue_webhook-IsKept e payload (some invoice.id) db in
      let rest : Option WebhookDelivery → Exec (List WebhookDelivery) = λ delivery. (do
        deliveries ← dispatch_events net now events merchant invoice payment
        pure (elim delivery [ none ↦ deliveries | some d ↦ d ∷ deliveries ])) in
      bind_run (λ out. IsKept db out.1) (queue_webhook net now merchant e payload (some invoice.id))
        rest db (λ x failed. queued)
        (λ found passed.
          bind_run (λ out. IsKept db out.1)
            (dispatch_events net now events merchant invoice payment)
            (λ deliveries. pure (elim found [ none ↦ deliveries | some d ↦ d ∷ deliveries ]))
            (queue_webhook net now merchant e payload (some invoice.id) db).1
            (λ x failed. IsKept-trans queued (dispatch_events-IsKept events invoice payment _))
            (λ x passed. IsKept-trans queued (dispatch_events-IsKept events invoice payment _)))

module _ (net : Network) (now : ℕ) where
  queued-IsKept :
      (event_type : String) (sub : Subscription) (invoice_id : Option ℕ) (reason : Option String)
      (merchant : Option Merchant) (db : Db)
      → IsKept db (queue_for net now event_type sub invoice_id reason merchant db).1
  queued-IsKept event_type sub invoice_id reason none db = IsKept-refl db
  queued-IsKept event_type sub invoice_id reason (some merchant) db =
      queue_webhook-IsKept net now merchant event_type _ none db

  pub dispatched-IsKept :
      (event_type : String) (sub : Subscription) (invoice_id : Option ℕ) (reason : Option String)
      (db : Db)
      → IsKept db (dispatch_subscription_event net now event_type sub invoice_id reason db).1
  unfolding dispatch_subscription_event
  dispatched-IsKept event_type sub invoice_id reason db =
      bind_run (λ out. IsKept db out.1) (find_merchant sub.merchant_id)
        (queue_for net now event_type sub invoice_id reason) db (λ e failed. IsKept-refl db)
        (λ merchant passed. queued-IsKept event_type sub invoice_id reason merchant db)
