-- ===== src/Grace/Hook.antt =====
-- The subscription service as what the payment service calls for a paid invoice: it fills the
-- interface of `PaymentHook`.
use ghostbill.Prelude.{ℕ, Option, none, some, String}
use ghostbill.Model.{
  Db, Invoice, Subscription, SubscriptionPayment, Keeps, IsAside, aside, bind-Keeps, if-Keeps,
  pure-Keeps, read-Keeps, try_except-Keeps, except_raise-Keeps, raise-Keeps, put_subscription-Aside,
}
use ghostbill.Tor.{Network}
use ghostbill.Webhook.{dispatch_subscription_event}
use ghostbill.Webhook.Queueing.{dispatched-IsKept}
use ghostbill.Prepayment.Footprint.{handle_prepay_payment-Aside, clear_prepay_invoice-Aside}
use ghostbill.Payment.Hook.{PaymentHook}
use ghostbill.Grace.{
  handle_subscription_payment, on_prepay_invoice, on_invoice, on_period, recover, prepay_owner,
  try_dispatch, clear_stored,
}

ruleset asides = (
  except_raise-Keeps, raise-Keeps, bind-Keeps, if-Keeps, pure-Keeps, read-Keeps, try_except-Keeps,
  except_raise-Keeps, raise-Keeps, put_subscription-Aside, handle_prepay_payment-Aside,
  clear_prepay_invoice-Aside,
)

clear_stored-Aside :
    (invoice : Invoice) (found : Option Subscription) → Keeps aside (clear_stored invoice found)
clear_stored-Aside invoice none = search asides
clear_stored-Aside invoice (some sub) = search asides

module _ (net : Network) (now : ℕ) where
  pub dispatched-Aside :
      (event_type : String) (sub : Subscription) (invoice_id : Option ℕ) (reason : Option String)
      → Keeps aside (dispatch_subscription_event net now event_type sub invoice_id reason)
  dispatched-Aside event_type sub invoice_id reason = record {
    run = λ db.
        let kept = dispatched-IsKept net now event_type sub invoice_id reason db in
        record {
          invoices = kept.invoices;
          payments = kept.payments;
          addresses = kept.addresses;
          next_id = kept.next_id;
        };
  }

  pub try_dispatch-Aside :
      (event_type : String) (sub : Subscription) (invoice_id : Option ℕ) (reason : Option String)
      → Keeps aside (try_dispatch net now event_type sub invoice_id reason)
  unfolding try_dispatch
  try_dispatch-Aside event_type sub invoice_id reason = search (asides, dispatched-Aside)

  recover-Aside : (found : Option Subscription) → Keeps aside (recover net now found)
  recover-Aside none = search asides
  recover-Aside (some sub) = search asides

  on_period-Aside : (found : Option SubscriptionPayment) → Keeps aside (on_period net now found)
  on_period-Aside none = search asides
  on_period-Aside (some sp) = search (asides, recover-Aside)

  on_prepay_invoice-Aside :
      (invoice : Invoice) (found : Option Subscription)
      → Keeps aside (on_prepay_invoice net now invoice found)
  unfolding on_prepay_invoice
  on_prepay_invoice-Aside invoice none = search asides
  on_prepay_invoice-Aside invoice (some sub) =
      search (asides, clear_stored-Aside, try_dispatch-Aside)

  prepay_owner-Aside :
      (subscription_id : Option ℕ) → Keeps aside (prepay_owner net now subscription_id)
  prepay_owner-Aside none = search asides
  prepay_owner-Aside (some subscription_id) = search asides

  on_invoice-Aside : (found : Option Invoice) → Keeps aside (on_invoice net now found)
  on_invoice-Aside none = search asides
  on_invoice-Aside (some invoice) =
      search (asides, prepay_owner-Aside, on_prepay_invoice-Aside, on_period-Aside)

  -- However it ends, the subscription service leaves the tables of invoices, payments and addresses as
  -- they are when an invoice has been paid, and the id that is given out next does not go back.
  pub handle_subscription_payment-Aside :
      (invoice_id : ℕ) (db : Db) → IsAside db (handle_subscription_payment net now invoice_id db).1
  unfolding handle_subscription_payment
  handle_subscription_payment-Aside invoice_id =
      let kept : Keeps aside (handle_subscription_payment net now invoice_id) =
        search (asides, on_invoice-Aside) in
      kept.run

  -- What the payment service calls.
  abbrev pub subscription_hook : PaymentHook
  subscription_hook = record {
    on_paid = handle_subscription_payment net now;
    keeps_invoices = λ k db. (handle_subscription_payment-Aside k db).invoices;
    keeps_payments = λ k db. (handle_subscription_payment-Aside k db).payments;
    keeps_addresses = λ k db. (handle_subscription_payment-Aside k db).addresses;
    next_id_grows = λ k db. (handle_subscription_payment-Aside k db).next_id;
  }
