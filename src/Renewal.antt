-- ===== src/Renewal.antt =====
-- The renewal of a subscription: log_renewal_event and the creation of the invoice of a period in
-- backend/app/services/subscription_renewal.py. The object that the session holds is the row, so what
-- is written to it before an exception stays.
pub mod Periods
pub mod Once
pub mod Success
use ghostbill.Prelude.{
  ℕ, ◌+◌, ◌*◌, Bool, true, false, not, Option, none, some, List, [], ◌∷◌, ◌++◌, ltb, ◌==◌, ◌&&◌,
  ◌||◌, select, any, length, max, is_some, String,
}
use ghostbill.Prelude.Int.{pos}
use ghostbill.Model.{
  database_error, InvoiceStatus, Exec, pure, gets, modify, ◌>>=◌, ◌>>◌, raise_if, when, uuid4,
  add_audit, Db, Invoice, Merchant, Subscription, SubscriptionPayment, put_subscription,
  find_merchant, scalar_one_or_none, days, skip_renewal, skipped_idempotent, skipped_unpaid,
}
use ghostbill.Invoice.{create_invoice, InvoiceRequest}
use ghostbill.Invoice.Wallet.{RpcReply}
use ghostbill.Subscription.{
  apply_pending_changes, applied_is_valid, calculate_next_due, calculate_skipped_periods,
}

-- The message and the details of an event are left out.
unfoldable pub log_renewal_event : ℕ → String → Option ℕ → Exec (Unit {0})
log_renewal_event subscription_id result invoice_id = modify λ db. record db {
  renewal_events =
      db.renewal_events
      ++ record { subscription_id = subscription_id; result = result; invoice_id = invoice_id }
        ∷ [];
}

-- `db.add(SubscriptionPayment(id=uuid.uuid4(), ...))`
unfoldable pub add_subscription_payment : ℕ → ℕ → ℕ → ℕ → Exec SubscriptionPayment
add_subscription_payment subscription_id invoice_id period_start period_end = do
  id ← uuid4
  modify λ db. record db {
    subscription_payments =
        db.subscription_payments
        ++ record {
          id = id;
          subscription_id = subscription_id;
          invoice_id = invoice_id;
          period_start = period_start;
          period_end = period_end;
        }
          ∷ [];
  }
  pure (record {
    id = id;
    subscription_id = subscription_id;
    invoice_id = invoice_id;
    period_start = period_start;
    period_end = period_end;
  })

-- `Invoice.status.in_([pending, partially_paid])`
abbrev pub is_open : InvoiceStatus → Bool
is_open InvoiceStatus.pending = true
is_open InvoiceStatus.partially_paid = true
is_open _ = false

-- The invoice of a period, in a status that passes a test.
abbrev pub has_invoice : (Invoice → Bool) → Db → SubscriptionPayment → Bool
has_invoice test db sp = any (λ i. i.id == sp.invoice_id && test i) db.invoices

-- The periods of a subscription whose invoice is open; ids differ, so a period joins one invoice.
unfoldable pub unpaid_count : ℕ → Db → ℕ
unpaid_count subscription_id db = length (
    select
      (λ sp. sp.subscription_id == subscription_id && has_invoice (λ i. is_open i.status) db sp)
      db.subscription_payments)

abbrev pub is_period : ℕ → ℕ → SubscriptionPayment → Bool
is_period subscription_id period_start sp =
    sp.subscription_id == subscription_id && sp.period_start == period_start

-- `if changes`: some field is pending.
abbrev pub has_pending : Subscription → Bool
has_pending sub =
    is_some sub.pending_amount_atomic
    || is_some sub.pending_interval_days
    || is_some sub.pending_grace_soft
    || is_some sub.pending_grace_hard

-- The arguments of `create_invoice`; of the description only the first word is kept.
unfoldable pub renewal_request : Subscription → InvoiceRequest
renewal_request sub = record {
  amount_xmr_raw = some sub.amount_xmr;
  description = some "Subscription";
  expires_in = some (pos (max ((sub.grace_days_soft + sub.grace_days_hard) * 86400) 600));
  metadata = some (record {
    prepay = false;
    subscription_id = some sub.id;
    periods = none;
    discount_pct = none;
  });
  fiat_rate = none;
  fiat_currency = "USD";
}

-- Steps 5 to 8, for the subscription with its pending changes applied.
unfoldable pub finish_renewal :
    ℕ → Subscription → ℕ → Invoice → Exec (Invoice × SubscriptionPayment)
unfolding add_subscription_payment log_renewal_event
finish_renewal now sub period_start invoice = do
  sp ←
      add_subscription_payment sub.id invoice.id period_start
        (period_start + days sub.interval_days)
  put_subscription
      (record sub { next_due_at = calculate_next_due sub.billing_anchor_at sub.interval_days now })
  add_audit (some sub.merchant_id) "subscription.renewed" (some sub.id)
  log_renewal_event sub.id "success" (some invoice.id)
  pure (invoice, sp)

-- `_create_renewal_invoice`. The flush refuses changes that break a constraint. The number of skipped periods only goes to the logs.
unfoldable pub create_renewal_invoice_for :
    (ℕ → RpcReply) → ℕ → Subscription → Merchant → Exec (Invoice × SubscriptionPayment)
unfolding finish_renewal applied_is_valid
create_renewal_invoice_for wallet now sub merchant = do
  existing ← λ db.
      (scalar_one_or_none (select (is_period sub.id sub.next_due_at) db.subscription_payments), db)
  raise_if (is_some existing) (skip_renewal skipped_idempotent)
  unpaid ← gets (unpaid_count sub.id)
  raise_if (ltb 0 unpaid) (skip_renewal skipped_unpaid)
  raise_if (has_pending sub && not (applied_is_valid sub)) database_error
  put_subscription (apply_pending_changes sub)
  when (has_pending sub) (log_renewal_event sub.id "pending_applied" none)
  invoice ← create_invoice wallet now merchant (renewal_request (apply_pending_changes sub))
  finish_renewal now (apply_pending_changes sub) sub.next_due_at invoice

abbrev pub renew_for :
    (ℕ → RpcReply)
    → ℕ
    → Subscription
    → Option Merchant
    → Exec (Option (Invoice × SubscriptionPayment))
renew_for wallet now sub none = pure none
renew_for wallet now sub (some merchant) =
    create_renewal_invoice_for wallet now sub merchant >>= λ created. pure (some created)

unfoldable pub create_renewal_invoice :
    (ℕ → RpcReply) → ℕ → Subscription → Exec (Option (Invoice × SubscriptionPayment))
unfolding create_renewal_invoice_for
create_renewal_invoice wallet now sub = do
  merchant ← find_merchant sub.merchant_id
  renew_for wallet now sub merchant
