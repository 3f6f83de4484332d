-- ===== src/Gateway/Reach.antt =====
-- Histories of the gateway, and what holds after each of them.
use ghostbill.Prelude.{ℕ, ◌≡◌, some, ◌∷◌, [], select, inl, inr, subst, sym}
use ghostbill.Prelude.Keys.{In}
use ghostbill.Model.{Db, Merchant, Payment, Subscription}
use ghostbill.Tor.{Network}
use ghostbill.Invoice.{create_invoice, cancel_invoice, InvoiceRequest}
use ghostbill.Invoice.Wallet.{RpcReply}
use ghostbill.Expiration.{expire_pending_invoices}
use ghostbill.Expiration.Deadline.{expire_pending_invoices-IsConsistent}
use ghostbill.Payment.{Transfer}
use ghostbill.Detection.{scan_one, miss, MissCounts}
use ghostbill.Gateway.Detect.{scan_one-IsConsistent, miss-IsConsistent}
use ghostbill.Prepayment.{create_prepay_invoice}
use ghostbill.Renewer.{run_sweep}
use ghostbill.Payment.Agreement.{IsConsistent}
use ghostbill.Payment.Transfers.{PaysOneInvoice}
use ghostbill.Subscription.{is_subscription_of, pause_subscription, resume_subscription}
use ghostbill.Subscription.Creation.{create_subscription, SubscriptionRequest}
use ghostbill.Subscription.Cancellation.{cancel_subscription}
use ghostbill.Gateway.Unsubscribe.{cancel_subscription_lem}
use ghostbill.Gateway.Cancel.{cancel_invoice-IsConsistent}
use ghostbill.Gateway.Billing.{
  create_subscription-Consistent, create_prepay_invoice-Consistent, pause_subscription-Consistent,
  resume_subscription-Consistent,
}
use ghostbill.Gateway.Sweep.{run_sweep-Consistent}
use ghostbill.Gateway.Create.{create_invoice-IsConsistent}

module _ (net : Network) where
  -- One event, at any time and with any outcome. A transfer is one whose transaction is recorded for no
  -- invoice but that of its subaddress; a payment that is lost is one that is recorded. A paid invoice is
  -- passed to the subscription service.
  pub data Step (db : Db) : Db → Type 0 where
    create :
        (wallet : ℕ → RpcReply) (now : ℕ) (m : Merchant) (r : InvoiceRequest)
        → Step db (create_invoice wallet now m r db).1
    cancel : (merchant_id invoice_id : ℕ) → Step db (cancel_invoice merchant_id invoice_id db).1
    expire : (now : ℕ) → Step db (expire_pending_invoices net now db).1
    transfer :
        (now : ℕ) (tx : Transfer) → PaysOneInvoice tx db → Step db (scan_one net now (some tx) db).1
    disappear :
        (now : ℕ) (misses : MissCounts) (p : Payment)
        → In p db.payments
        → Step db (miss net now misses p db).1
    subscribe :
        (wallet : ℕ → RpcReply) (now : ℕ) (m : Merchant) (r : SubscriptionRequest)
        → Step db (create_subscription wallet net now m r db).1
    pause :
        (now merchant_id subscription_id : ℕ)
        → Step db (pause_subscription net now merchant_id subscription_id db).1
    resume :
        (now merchant_id subscription_id : ℕ)
        → Step db (resume_subscription net now merchant_id subscription_id db).1
    unsubscribe :
        (now merchant_id subscription_id : ℕ) (sub : Subscription)
        → select (is_subscription_of merchant_id subscription_id) db.subscriptions ≡ sub ∷ []
        → Step db (cancel_subscription net now merchant_id subscription_id db).1
    prepay :
        (wallet : ℕ → RpcReply) (now : ℕ) (m : Merchant) (subscription_id periods : ℕ)
        → Step db (create_prepay_invoice wallet now m subscription_id periods db).1
    sweep : (wallet : ℕ → RpcReply) (now fuel : ℕ) → Step db (run_sweep wallet net now fuel db).1

  -- A history: events one after the other.
  pub data Reaches (db : Db) : Db → Type 0 where
    start : Reaches db db
    next : {mid last : Db} → Reaches db mid → Step mid last → Reaches db last

  Step-IsConsistent : {a b : Db} → Step a b → IsConsistent a → IsConsistent b
  Step-IsConsistent {a} (create wallet now m r) c = create_invoice-IsConsistent wallet now m r a c
  Step-IsConsistent {a} (cancel m i) c = cancel_invoice-IsConsistent m i a c
  Step-IsConsistent {a} (expire now) c = expire_pending_invoices-IsConsistent net now a c
  Step-IsConsistent {a} (transfer now tx single) c = scan_one-IsConsistent net now tx a single c
  Step-IsConsistent {a} (disappear now misses p there) c =
      miss-IsConsistent net now misses p a there c
  Step-IsConsistent {a} (subscribe wallet now m r) c =
      (create_subscription-Consistent net now wallet m r).run a c
  Step-IsConsistent {a} (pause now m k) c = (pause_subscription-Consistent net now m k).run a c
  Step-IsConsistent {a} (resume now m k) c = (resume_subscription-Consistent net now m k).run a c
  Step-IsConsistent {a} (unsubscribe now m k sub found) c =
      elim (cancel_subscription_lem net now m k a sub found c) [
        | inl (running, done) ↦ done.consistent
        | inr (over, same) ↦ subst (λ out. IsConsistent out.1) (sym same) c
      ]
  Step-IsConsistent {a} (prepay wallet now m k periods) c =
      (create_prepay_invoice-Consistent wallet now m k periods).run a c
  Step-IsConsistent {a} (sweep wallet now fuel) c =
      (run_sweep-Consistent wallet net now fuel).run a c

  -- From tables that keep the invariant, every history of requests for invoices and subscriptions,
  -- cancellations, expirations, prepayments, renewal sweeps, scanned transfers and missing transactions leads to
  -- tables that keep it: the ids of invoices and payments differ, and the status of every invoice says
  -- the truth about the sum of its confirmed payments, such as paid only at exactly the amount and
  -- expired only below it. The transfers are those whose transaction is recorded for no invoice but
  -- that of their subaddress.
  pub Reaches-IsConsistent : {a b : Db} → Reaches a b → IsConsistent a → IsConsistent b
  Reaches-IsConsistent start c = c
  Reaches-IsConsistent (next before s) c = Step-IsConsistent s (Reaches-IsConsistent before c)
