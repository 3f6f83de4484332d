-- ===== src/Subscription/Creation.antt =====
-- `create_subscription` of backend/app/services/subscription_service.py.
use ghostbill.Prelude.{
  ℕ, ◌+◌, Bool, true, false, not, Option, none, some, [], ◌∷◌, ◌++◌, ◌==◌, ◌&&◌, ◌||◌, leb,
  if◌then◌else◌, select, get_or,
}
use ghostbill.Prelude.Int.{ℤ, pos, negsuc, ltb_ℤ, pos_part}
use ghostbill.Model.{
  SubscriptionStatus, Decimal, Result, ok, err, Error, Exec, pure, raise, lift, modify, ◌>>=◌, ◌>>◌,
  uuid4, scalar_one_or_none, Merchant, Customer, Subscription, find_subscription, days,
  subscription_not_found, subscription_validation, wallet_unavailable, skip_renewal, raise_if,
  database_error, fits_subscription,
}
use ghostbill.Money.{is_nonpositive, xmr_to_atomic}
use ghostbill.Tor.{Network}
use ghostbill.Invoice.Wallet.{RpcReply}
use ghostbill.Subscription.{fire_lifecycle_event}
use ghostbill.Renewal.{create_renewal_invoice_for}

-- The arguments; an amount is what `Decimal(str(raw))` reads, if it does.
pub record SubscriptionRequest : Type 0 where
  pub customer_id : ℕ
  pub amount_xmr_raw : Option Decimal
  pub interval_days : ℤ
  pub grace_days_soft : ℤ
  pub grace_days_hard : ℤ
  pub start_at : Option ℕ
  pub trial_days : Option ℤ

abbrev is_customer_of : ℕ → ℕ → Customer → Bool
is_customer_of merchant_id customer_id c = c.id == customer_id && c.merchant_id == merchant_id

abbrev or_no_customer : Option Customer → Result (Unit {0})
or_no_customer none = err subscription_not_found
or_no_customer (some c) = ok tt

abbrev positive_amount : Option Decimal → Result Decimal
positive_amount none = err subscription_validation
positive_amount (some amount) = elim (is_nonpositive amount) [
  | err e ↦ err e
  | ok true ↦ err subscription_validation
  | ok false ↦ ok amount
]

-- The checks of the arguments, in their order.
unfoldable pub validate_request : SubscriptionRequest → Result Decimal
validate_request r = elim (positive_amount r.amount_xmr_raw) [
  | err e ↦ err e
  | ok amount_xmr ↦
      if ltb_ℤ r.interval_days (pos 1)
        || ltb_ℤ r.grace_days_soft (pos 0)
        || ltb_ℤ r.grace_days_hard (pos 0)
        || ltb_ℤ r.grace_days_hard r.grace_days_soft
      then err subscription_validation
      else ok amount_xmr
]

-- `trial_days if is_trial else None`
unfoldable pub trial_of : Option ℤ → Option ℕ
trial_of none = none
trial_of (some (negsuc n)) = none
trial_of (some (pos n)) = if leb n 0 then none else some n

-- `now + timedelta(days=trial_days)` in a trial.
abbrev trial_end : ℕ → Option ℕ → Option ℕ
trial_end now none = none
trial_end now (some n) = some (now + days n)

-- The row. `start_at` is used as it is, for any instant is true.
unfoldable pub new_subscription :
    ℕ → Merchant → SubscriptionRequest → ℕ → Decimal → ℕ → Subscription
unfolding trial_of
new_subscription now merchant r id amount_xmr amount_atomic = record {
  id = id;
  merchant_id = merchant.id;
  customer_id = r.customer_id;
  amount_atomic = amount_atomic;
  amount_xmr = amount_xmr;
  interval_days = pos_part r.interval_days;
  status = elim (trial_of r.trial_days) [
    | none ↦ SubscriptionStatus.active
    | some n ↦ SubscriptionStatus.trialing
  ];
  grace_days_soft = pos_part r.grace_days_soft;
  grace_days_hard = pos_part r.grace_days_hard;
  next_due_at = get_or (trial_end now (trial_of r.trial_days)) (get_or r.start_at now);
  cancelled_at = none;
  trial_days = trial_of r.trial_days;
  trial_end_at = trial_end now (trial_of r.trial_days);
  billing_anchor_at = get_or r.start_at now;
  pending_amount_atomic = none;
  pending_amount_xmr = none;
  pending_interval_days = none;
  pending_grace_soft = none;
  pending_grace_hard = none;
  prepaid_until = none;
  prepay_invoice_id = none;
  created_at = now;
}

-- `except (WalletUnavailableError, SkipRenewalError)`: other exceptions go on.
abbrev pub tolerated : Error → Exec (Unit {0})
tolerated wallet_unavailable = pure tt
tolerated (skip_renewal reason) = pure tt
tolerated e = raise e

abbrev pub tolerate : {A : Type 0} → Exec A → Exec (Unit {0})
tolerate m db = let (r, db') = m db in elim r [ ok a ↦ (ok tt, db') | err e ↦ tolerated e db' ]

-- The object after the renewal is the row.
abbrev refreshed : Subscription → Option Subscription → Subscription
refreshed sub found = get_or found sub

module _ (wallet : ℕ → RpcReply) (net : Network) (now : ℕ) (merchant : Merchant) where
  -- After the row is stored: the event of a trial, or the first invoice of one that is due.
  unfoldable pub start_subscription : Option ℕ → ℕ → Subscription → Exec (Unit {0})
  start_subscription (some trial) next_due sub =
      fire_lifecycle_event net now "subscription.trial_started" sub none
  start_subscription none next_due sub =
      if leb next_due now
      then tolerate (create_renewal_invoice_for wallet now sub merchant)
      else pure tt

  unfoldable pub create_subscription : SubscriptionRequest → Exec Subscription
  unfolding fits_subscription validate_request new_subscription start_subscription trial_of
  create_subscription r = do
    found ← λ db.
        (scalar_one_or_none (select (is_customer_of merchant.id r.customer_id) db.customers), db)
    lift (or_no_customer found)
    amount_xmr ← lift (validate_request r)
    id ← uuid4
    amount_atomic ← lift (xmr_to_atomic amount_xmr)
    sub ← pure (new_subscription now merchant r id amount_xmr (pos_part amount_atomic))
    raise_if (not (fits_subscription sub)) database_error
    modify λ db. record db { subscriptions = db.subscriptions ++ sub ∷ [] }
    start_subscription (trial_of r.trial_days) (get_or r.start_at now) sub
    stored ← find_subscription sub.id
    pure (refreshed sub stored)
