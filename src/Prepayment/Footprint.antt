-- ===== src/Prepayment/Footprint.antt =====
-- The tables that the payment of a prepay invoice leaves alone.
use ghostbill.Prelude.{ℕ, zero, suc, ◌+◌, ◌*◌, refl, Option, arith, String}
use ghostbill.Model.{
  Subscription, Invoice, Keeps, aside, bind-Keeps, if-Keeps, pure-Keeps, read-Keeps,
  put_subscription-Aside, add_audit-Aside, days,
}
use ghostbill.Renewal.{log_renewal_event, add_subscription_payment}
use ghostbill.Prepayment.{handle_prepay_payment, fulfil, add_periods, clear_prepay_invoice}

pub log_renewal_event-Aside :
    (subscription_id : ℕ) (result : String) (invoice_id : Option ℕ)
    → Keeps aside (log_renewal_event subscription_id result invoice_id)
unfolding log_renewal_event
log_renewal_event-Aside subscription_id result invoice_id = record {
  run = λ db. record { invoices = refl; payments = refl; addresses = refl; next_id = omega arith };
}

pub add_subscription_payment-Aside :
    (subscription_id invoice_id period_start period_end : ℕ)
    → Keeps aside (add_subscription_payment subscription_id invoice_id period_start period_end)
unfolding add_subscription_payment
add_subscription_payment-Aside subscription_id invoice_id period_start period_end = record {
  run = λ db. record { invoices = refl; payments = refl; addresses = refl; next_id = omega arith };
}

ruleset asides = (
  bind-Keeps, if-Keeps, pure-Keeps, read-Keeps, put_subscription-Aside, add_audit-Aside,
  log_renewal_event-Aside, add_subscription_payment-Aside,
)

add_periods-Aside :
    (sub : Subscription) (invoice_id i count : ℕ) → Keeps aside (add_periods sub invoice_id i count)
unfolding add_periods
add_periods-Aside sub invoice_id i zero = pure-Keeps
add_periods-Aside sub invoice_id i (suc count) =
    bind-Keeps
      {m = add_subscription_payment sub.id invoice_id
        (sub.next_due_at + days (i * sub.interval_days))
        (sub.next_due_at + days ((i + 1) * sub.interval_days))}
      {f = λ _. add_periods sub invoice_id (i + 1) count} (search asides)
      (λ _. add_periods-Aside sub invoice_id (i + 1) count)

pub clear_prepay_invoice-Aside :
    (invoice : Invoice) (sub : Subscription) → Keeps aside (clear_prepay_invoice invoice sub)
unfolding clear_prepay_invoice
clear_prepay_invoice-Aside invoice sub = search asides

fulfil-Aside :
    (periods : ℕ) (invoice : Invoice) (sub : Subscription)
    → Keeps aside (fulfil periods invoice sub)
unfolding fulfil
fulfil-Aside periods invoice sub = search (asides, add_periods-Aside)

pub handle_prepay_payment-Aside :
    (invoice : Invoice) (sub : Subscription) → Keeps aside (handle_prepay_payment invoice sub)
unfolding handle_prepay_payment
handle_prepay_payment-Aside invoice sub = search (asides, clear_prepay_invoice-Aside, fulfil-Aside)
