-- ===== src/Tests/Billing.antt =====
-- Prepayment, renewal and the payment hook: their theorems applied to the small shop.
use ghostbill.Prelude.{
  ◌+◌, ◌*◌, ◌≡◌, ◌≢◌, ◌⊎◌, refl, true, false, none, some, List, [], ◌∷◌, ◌++◌, All, length, select,
  update_where, arith,
}
use ghostbill.Prelude.Int.{pos}
use ghostbill.Model.{
  Db, Invoice, InvoiceStatus, Subscription, SubscriptionStatus, SubscriptionPayment, IsAside, dec,
  days, seconds, ok, subscription_has_id, fits_columns,
}
use ghostbill.Invoice.{draft_invoice, validate_expires_in, fiat_amount_of, currency_of}
use ghostbill.Invoice.Wallet.{created}
use ghostbill.Prepayment.{handle_prepay_payment, calculate_prepay_amount}
use ghostbill.Prepayment.Amount.{calculate_prepay_amount_lem}
use ghostbill.Prepayment.Fulfilment.{
  handle_prepay_payment_books, handle_prepay_payment_repeats, Tiles, BelongsTo,
}
use ghostbill.Grace.{handle_subscription_payment}
use ghostbill.Grace.Hook.{handle_subscription_payment-Aside}
use ghostbill.Renewal.{create_renewal_invoice_for, is_period, unpaid_count, renewal_request}
use ghostbill.Renewal.Periods.{Books}
use ghostbill.Renewal.Once.{IsOnce, create_renewal_invoice_lem}
use ghostbill.Renewal.Success.{create_renewal_invoice_books, Renews}
use ghostbill.Renewer.{renew_loop, no_counts, due_subscriptions}
use ghostbill.Renewer.Endless.{Waits, renew_loop_endless}
use ghostbill.Subscription.{apply_pending_changes, applied_is_valid}
use ghostbill.Money.{parse_amount_xmr, xmr_to_atomic}
use ghostbill.Tests.{clear_net, shop, bill}
use ghostbill.Tests.Subscriptions.{monthly, members}

-- A year of a past due subscription, paid at once.
abbrev yearly : Invoice
yearly = record bill {
  status = InvoiceStatus.paid;
  metadata_json = some (record {
    prepay = true;
    subscription_id = some 4;
    periods = some 12;
    discount_pct = some 10;
  });
}

abbrev owing : Subscription
owing = record monthly { status = SubscriptionStatus.past_due; prepay_invoice_id = some 2 }

abbrev year_paid : Db
year_paid = record members { invoices = yearly ∷ []; subscriptions = owing ∷ [] }

handle_subscription_payment-Aside_example :
    IsAside year_paid (handle_subscription_payment clear_net 50 2 year_paid).1
handle_subscription_payment-Aside_example =
    handle_subscription_payment-Aside clear_net 50 2 year_paid

handle_prepay_payment_books_example :
    let out = handle_prepay_payment yearly owing year_paid in
    (after : Subscription) × (new : List SubscriptionPayment) × (out.0 ≡ ok after)
    × (after.next_due_at ≡ 1000 + days (12 * 30))
    × (after.prepaid_until ≡ some after.next_due_at)
    × (after.prepay_invoice_id ≡ none)
    × ((owing.status ≡ SubscriptionStatus.past_due → after.status ≡ SubscriptionStatus.active)
        × (owing.status ≢ SubscriptionStatus.past_due → after.status ≡ owing.status))
    × (out.1.subscriptions ≡ update_where (subscription_has_id 4) (λ _. after) (owing ∷ []))
    × (out.1.subscription_payments ≡ [] ++ new)
    × (length new ≡ 12)
    × All (BelongsTo 4 2) new
    × Tiles (days 30) 1000 after.next_due_at new
handle_prepay_payment_books_example = handle_prepay_payment_books yearly owing year_paid refl

handle_prepay_payment_repeats_example :
    (after : Subscription) × ((handle_prepay_payment yearly owing year_paid).0 ≡ ok after)
    × (handle_prepay_payment yearly after (handle_prepay_payment yearly owing year_paid).1
        ≡ (ok after, (handle_prepay_payment yearly owing year_paid).1))
handle_prepay_payment_repeats_example =
    handle_prepay_payment_repeats yearly owing year_paid (omega arith)

calculate_prepay_amount_lem_example :
    calculate_prepay_amount (dec (pos 500000000001) 12) 12 10
    ≡ ok (dec (pos 5400000000010) 12, pos 5400000000010)
calculate_prepay_amount_lem_example =
    calculate_prepay_amount_lem 500000000001 12 10 (omega arith) (omega arith)

create_renewal_invoice_lem_example :
    let out = create_renewal_invoice_for (λ id. created 78 4) 5000 monthly shop members in
    ((out.1.subscription_payments ≡ [])
      ⊎ (Books 4 1000 members out.1
          × (select (is_period 4 1000) members.subscription_payments ≡ [])
          × (unpaid_count 4 members ≡ 0)))
    × (IsOnce members → IsOnce out.1)
create_renewal_invoice_lem_example =
    create_renewal_invoice_lem (λ id. created 78 4) 5000 monthly shop members

abbrev renewal_bill : Invoice
renewal_bill = record {
  id = 5;
  merchant_id = 1;
  amount_atomic = 500000000;
  amount_xmr = dec (pos 5) 4;
  fiat_currency = none;
  fiat_amount = none;
  fiat_rate = none;
  status = InvoiceStatus.pending;
  description = some "Subscription";
  metadata_json =
      some
        (record { prepay = false; subscription_id = some 4; periods = none; discount_pct = none });
  expires_at = 5000 + seconds 864000;
  paid_at = none;
  created_at = 5000;
}

none_unpaid : unpaid_count 4 members ≡ 0
unfolding unpaid_count
none_unpaid = refl

renewal_drafted :
    draft_invoice 5000 shop (renewal_request (apply_pending_changes monthly)) 5 ≡ ok renewal_bill
unfolding draft_invoice renewal_request apply_pending_changes validate_expires_in fiat_amount_of
    currency_of parse_amount_xmr xmr_to_atomic
renewal_drafted = refl

renewal-fits : fits_columns renewal_bill ≡ true
unfolding fits_columns
renewal-fits = refl

monthly-valid : applied_is_valid monthly ≡ true
unfolding applied_is_valid
monthly-valid = refl

create_renewal_invoice_books_example :
    let out = create_renewal_invoice_for (λ id. created 78 4) 5000 monthly shop members in
    (sp : SubscriptionPayment) × (out.0 ≡ ok (renewal_bill, sp))
    × (sp.invoice_id ≡ 5)
    × (sp.subscription_id ≡ 4)
    × (sp.period_start ≡ 1000)
    × (sp.period_end ≡ 1000 + days 60)
    × (out.1.subscription_payments ≡ [] ++ sp ∷ [])
    × (out.1.invoices ≡ (bill ∷ []) ++ renewal_bill ∷ [])
    × (after : Subscription) × Renews 5000 monthly after
    × (parse_amount_xmr (some after.amount_xmr) ≡ ok (dec (pos 5) 4))
    × (out.1.subscriptions
        ≡ update_where (subscription_has_id 4) (λ _. after) members.subscriptions)
create_renewal_invoice_books_example =
    create_renewal_invoice_books (λ id. created 78 4) 5000 monthly shop members renewal_bill 78 4
      renewal_drafted renewal-fits refl refl monthly-valid (λ h. refl) refl none_unpaid

-- The invoice of an earlier period is still open when the next one is due.
abbrev earlier : SubscriptionPayment
earlier = record {
  id = 3;
  subscription_id = 4;
  invoice_id = 2;
  period_start = 0;
  period_end = 1000;
}

abbrev unpaid_members : Db
unpaid_members = record members { subscription_payments = earlier ∷ [] }

monthly-Waits : Waits unpaid_members monthly
unfolding unpaid_count
monthly-Waits = record {
  merchant = shop;
  owned = refl;
  unguarded = refl;
  fresh = refl;
  unpaid = omega arith;
}

its_turn : due_subscriptions 5000 unpaid_members ≡ monthly ∷ []
unfolding due_subscriptions
its_turn = refl

renew_loop_endless_example :
    (renew_loop (λ id. created 78 4) clear_net 5000 1000 no_counts unpaid_members).0 ≡ ok none
renew_loop_endless_example =
    renew_loop_endless (λ id. created 78 4) clear_net 5000 unpaid_members 1000 no_counts monthly []
      its_turn (monthly-Waits, tt)
