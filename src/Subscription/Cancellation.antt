-- ===== src/Subscription/Cancellation.antt =====
-- `cancel_subscription` of backend/app/services/subscription_service.py.
use ghostbill.Prelude.{ℕ, Bool, some, List, [], ◌∷◌, ◌==◌, ◌&&◌, any, select, map}
use ghostbill.Model.{
  InvoiceStatus, is_invoice_status, SubscriptionStatus, Exec, pure, gets, lift, ◌>>=◌, ◌>>◌,
  raise_if, try_except, add_audit, Db, Invoice, Subscription, put_subscription, subscription_state,
}
use ghostbill.Tor.{Network}
use ghostbill.Invoice.{cancel_invoice}
use ghostbill.Subscription.{
  get_for_update, is_terminal, transition_subscription_status, fire_lifecycle_event,
}

-- `SubscriptionPayment.invoice_id == Invoice.id, Invoice.status == pending`
abbrev pub is_pending_invoice : ℕ → Invoice → Bool
is_pending_invoice invoice_id i =
    i.id == invoice_id && is_invoice_status i.status InvoiceStatus.pending

-- The invoices of the query's rows.
unfoldable pub pending_invoices : ℕ → Db → List ℕ
pending_invoices subscription_id db =
    map (λ sp. sp.invoice_id)
      (select
        (λ sp.
          sp.subscription_id == subscription_id
          && any (is_pending_invoice sp.invoice_id) db.invoices)
        db.subscription_payments)

-- The loop: an invoice that cannot be cancelled is logged, and the next one follows.
unfoldable pub cancel_each : ℕ → List ℕ → Exec (Unit {0})
cancel_each merchant_id [] = pure tt
cancel_each merchant_id (id ∷ ids) = do
  try_except (cancel_invoice merchant_id id >>= λ _. pure tt) (pure tt)
  cancel_each merchant_id ids

-- The metadata of the webhook, on invoices that could not be cancelled, is left out.
unfoldable pub cancel_subscription : Network → ℕ → ℕ → ℕ → Exec Subscription
unfolding cancel_each
cancel_subscription net now merchant_id subscription_id = do
  sub ← get_for_update merchant_id subscription_id
  raise_if (is_terminal sub.status) subscription_state
  ended ← lift (transition_subscription_status sub SubscriptionStatus.cancelled)
  put_subscription (record ended { cancelled_at = some now })
  invoices ← gets (pending_invoices sub.id)
  cancel_each merchant_id invoices
  add_audit (some merchant_id) "subscription.cancelled" (some sub.id)
  fire_lifecycle_event net now "subscription.cancelled" (record ended { cancelled_at = some now })
      (some "merchant_action")
  pure (record ended { cancelled_at = some now })
