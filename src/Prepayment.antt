-- ===== src/Prepayment.antt =====
-- Paying several periods at once: backend/app/services/subscription_prepay.py. A change of the
-- subscription is written to its row, and the changed object is what comes back.
pub mod Footprint
pub mod Amount
pub mod Fulfilment
use ghostbill.Prelude.{
  ℕ, zero, suc, ◌+◌, ◌-◌, ◌*◌, ◌/◌, ◌^◌, Bool, true, false, not, Option, none, some, List, [], ◌∷◌,
  ltb, leb, ◌==◌, if◌then◌else◌, select, length, max, min, is_some, is_id, get_or,
}
use ghostbill.Prelude.Int.{ℤ, pos, negsuc}
use ghostbill.Model.{
  SubscriptionStatus, is_subscription_status, Decimal, dec, round_context, precision_bound, Result,
  ok, err, Error, Exec, pure, raise, gets, lift, ◌>>=◌, ◌>>◌, raise_if, add_audit, Merchant, Plan,
  Metadata, Invoice, Subscription, SubscriptionPayment, put_subscription, days, subscription_state,
  subscription_validation, invalid_operation,
}
use ghostbill.Money.{xmr_to_atomic}
use ghostbill.Invoice.{create_invoice, InvoiceRequest}
use ghostbill.Invoice.Wallet.{RpcReply}
use ghostbill.Subscription.{get_for_update}
use ghostbill.Renewal.{log_renewal_event, add_subscription_payment}

-- `status in ALLOWED_PREPAY_STATUSES`
abbrev pub allows_prepay : SubscriptionStatus → Bool
allows_prepay SubscriptionStatus.active = true
allows_prepay SubscriptionStatus.past_due = true
allows_prepay _ = false

-- `_find_plan`
unfoldable pub find_plan : List Plan → ℕ → Option Plan
find_plan [] periods = none
find_plan (plan ∷ plans) periods =
    let rest = find_plan plans periods in if plan.periods == periods then some plan else rest

-- `value.quantize(Decimal("0.000000000001"), rounding=ROUND_DOWN)` of a value above 0, which raises
-- where the result has more than 28 digits.
unfoldable pub quantize_down : ℕ → ℕ → Result Decimal
quantize_down n s =
    let digits = if leb s 12 then n * 10 ^ (12 - s) else n / 10 ^ (s - 12) in
    if ltb digits precision_bound then ok (dec (pos digits) 12) else err invalid_operation

-- `total_xmr` of `_calculate_prepay_amount`, for an amount n / 10^s; `100 - discount_pct` hundredths
-- are exact, each product is rounded to the context.
unfoldable pub prepay_total : ℕ → ℕ → ℕ → ℕ → Result Decimal
unfolding quantize_down
prepay_total n s periods discount_pct =
    let total = round_context (n * periods) in
    if ltb 0 discount_pct
    then quantize_down (round_context (total * (100 - discount_pct))) (s + 2)
    else ok (dec (pos total) s)

-- `_calculate_prepay_amount`; an amount of a subscription is above 0 and finite.
unfoldable pub calculate_prepay_amount : Decimal → ℕ → ℕ → Result (Decimal × ℤ)
unfolding prepay_total
calculate_prepay_amount (dec (pos n) s) periods discount_pct =
    elim (prepay_total n s periods discount_pct) [
      | err e ↦ err e
      | ok total_xmr ↦ elim (xmr_to_atomic total_xmr) [
        | err e ↦ err e
        | ok total_atomic ↦ ok (total_xmr, total_atomic)
      ]
    ]
calculate_prepay_amount _ periods discount_pct = err invalid_operation

-- `min(max(periods * interval_days * 86400, 86400), 30 * 86400)`
abbrev pub prepay_lifetime : ℕ → ℕ → ℕ
prepay_lifetime periods interval_days =
    min (max (periods * interval_days * 86400) 86400) (30 * 86400)

-- The arguments of `create_invoice`; of the description only the first word is kept.
unfoldable pub prepay_request : Subscription → ℕ → ℕ → Decimal → InvoiceRequest
prepay_request sub periods discount_pct total_xmr = record {
  amount_xmr_raw = some total_xmr;
  description = some "Prepay";
  expires_in = some (pos (prepay_lifetime periods sub.interval_days));
  metadata = some (record {
    prepay = true;
    subscription_id = some sub.id;
    periods = some periods;
    discount_pct = some discount_pct;
  });
  fiat_rate = none;
  fiat_currency = "USD";
}

-- `discount_pct > 99` and no such plan both raise.
abbrev pub plan_discount : Option Plan → Result ℕ
plan_discount none = err subscription_validation
plan_discount (some plan) =
    if ltb 99 plan.discount_pct then err subscription_validation else ok plan.discount_pct

-- Steps 5 and 6.
unfoldable pub guard_renewal : Merchant → Subscription → ℕ → Invoice → Exec Invoice
unfolding log_renewal_event
guard_renewal merchant sub periods invoice = do
  put_subscription (record sub {
    prepay_invoice_id = some invoice.id;
    prepaid_until = some (sub.next_due_at + days (periods * sub.interval_days));
  })
  add_audit (some merchant.id) "subscription.prepay_created" (some sub.id)
  log_renewal_event sub.id "prepay_created" (some invoice.id)
  pure invoice

unfoldable pub create_prepay_invoice : (ℕ → RpcReply) → ℕ → Merchant → ℕ → ℕ → Exec Invoice
unfolding get_for_update find_plan calculate_prepay_amount prepay_request guard_renewal
create_prepay_invoice wallet now merchant subscription_id periods = do
  sub ← get_for_update merchant.id subscription_id
  raise_if (not (allows_prepay sub.status)) subscription_state
  raise_if (is_some sub.prepay_invoice_id) subscription_state
  raise_if (ltb periods 1) subscription_validation
  discount_pct ← lift (plan_discount (find_plan merchant.prepay_plans periods))
  total ← lift (calculate_prepay_amount sub.amount_xmr periods discount_pct)
  invoice ← create_invoice wallet now merchant (prepay_request sub periods discount_pct total.0)
  guard_renewal merchant sub periods invoice

-- The `for` loop: the periods from the `i`th on, `count` of them.
unfoldable pub add_periods : Subscription → ℕ → ℕ → ℕ → Exec (Unit {0})
unfolding add_subscription_payment
add_periods sub invoice_id i zero = pure tt
add_periods sub invoice_id i (suc count) = do
  add_subscription_payment sub.id invoice_id (sub.next_due_at + days (i * sub.interval_days))
      (sub.next_due_at + days ((i + 1) * sub.interval_days))
  add_periods sub invoice_id (i + 1) count

-- `meta = invoice.metadata_json or {}`
abbrev pub no_metadata : Metadata
no_metadata = record { prepay = false; subscription_id = none; periods = none; discount_pct = none }

abbrev pub meta_of : Invoice → Metadata
meta_of invoice = get_or invoice.metadata_json no_metadata

-- The subscription after the periods of a paid invoice are booked.
unfoldable pub fulfilled : ℕ → Subscription → Subscription
fulfilled periods sub = record sub {
  next_due_at = sub.next_due_at + days (periods * sub.interval_days);
  prepaid_until = some (sub.next_due_at + days (periods * sub.interval_days));
  prepay_invoice_id = none;
  status =
      if is_subscription_status sub.status SubscriptionStatus.past_due
      then SubscriptionStatus.active
      else sub.status;
}

unfoldable pub fulfil : ℕ → Invoice → Subscription → Exec Subscription
unfolding add_periods fulfilled log_renewal_event
fulfil periods invoice sub = do
  add_periods sub invoice.id 0 periods
  put_subscription (fulfilled periods sub)
  add_audit (some sub.merchant_id) "subscription.prepay_fulfilled" (some sub.id)
  log_renewal_event sub.id "prepay_fulfilled" (some invoice.id)
  pure (fulfilled periods sub)

-- `if sub.prepay_invoice_id == invoice.id: sub.prepay_invoice_id = None`
unfoldable pub clear_prepay_invoice : Invoice → Subscription → Exec Subscription
clear_prepay_invoice invoice sub =
    if is_id sub.prepay_invoice_id invoice.id
    then put_subscription (record sub { prepay_invoice_id = none })
      >> pure (record sub { prepay_invoice_id = none })
    else pure sub

abbrev pub pays_invoice : ℕ → SubscriptionPayment → Bool
pays_invoice invoice_id sp = sp.invoice_id == invoice_id

unfoldable pub handle_prepay_payment : Invoice → Subscription → Exec Subscription
unfolding fulfil clear_prepay_invoice
handle_prepay_payment invoice sub = do
  existing_count ← gets λ db. length (select (pays_invoice invoice.id) db.subscription_payments)
  (if ltb 0 existing_count
      then clear_prepay_invoice invoice sub
      else fulfil (get_or (meta_of invoice).periods 1) invoice sub)

unfoldable pub clear_expired_prepay : Subscription → Exec Subscription
clear_expired_prepay sub =
    put_subscription (record sub { prepay_invoice_id = none; prepaid_until = none })
    >> pure (record sub { prepay_invoice_id = none; prepaid_until = none })
