-- ===== src/Renewer.antt =====
-- The sweep of backend/app/tasks/subscription_renewer.py. `now` is what the clock shows during the
-- sweep; commits write nothing. The loop over the due subscriptions runs on fuel, one for each batch.
pub mod Endless
use ghostbill.Prelude.{
  ℕ, zero, suc, ◌+◌, Bool, true, false, Option, none, some, List, [], ◌∷◌, leb, ◌&&◌, if◌then◌else◌,
  select, take, String,
}
use ghostbill.Model.{
  InvoiceStatus, is_invoice_status, SubscriptionStatus, is_subscription_status, Result, ok, err,
  Error, skip_renewal, skipped_idempotent, skipped_unpaid, wallet_unavailable, Exec, pure, gets,
  lift, ◌>>=◌, ◌>>◌, try_except, Db, Merchant, Invoice, Subscription, SubscriptionPayment,
  find_invoice, find_merchant, put_subscription,
}
use ghostbill.Invoice.{is_paid_status}
use ghostbill.Invoice.Wallet.{RpcReply}
use ghostbill.Tor.{Network}
use ghostbill.Webhook.{dispatch_subscription_event}
use ghostbill.Subscription.{transition_subscription_status}
use ghostbill.Subscription.Creation.{tolerate}
use ghostbill.Renewal.{log_renewal_event, create_renewal_invoice}
use ghostbill.Prepayment.{clear_expired_prepay}
use ghostbill.Grace.{GraceCounts, check_grace_periods}

abbrev pub batch_size : ℕ
batch_size = 50

-- The invoice that the subscription waits for; the subscription comes back as the object is.
abbrev pub guard_by : Subscription → Option Invoice → Exec (Bool × Subscription)
guard_by sub none =
    put_subscription (record sub { prepay_invoice_id = none; prepaid_until = none })
    >> pure (false, record sub { prepay_invoice_id = none; prepaid_until = none })
guard_by sub (some invoice) =
    if is_invoice_status invoice.status InvoiceStatus.pending
    then pure (true, sub)
    else if is_paid_status invoice.status
    then pure (true, sub)
    else clear_expired_prepay sub >>= λ cleared.
        log_renewal_event sub.id "prepay_expired" none >> pure (false, cleared)

abbrev pub guard_of : Subscription → Option ℕ → Exec (Bool × Subscription)
guard_of sub none = pure (false, sub)
guard_of sub (some invoice_id) = find_invoice invoice_id >>= guard_by sub

unfoldable pub check_prepay_guard : Subscription → Exec (Bool × Subscription)
unfolding clear_expired_prepay
check_prepay_guard sub = guard_of sub sub.prepay_invoice_id

-- The summary of a sweep, without the counts of the grace check.
pub record SweepCounts : Type 0 where
  pub renewed : ℕ
  pub skipped : ℕ
  pub failed : ℕ
  pub prepay_skipped : ℕ

abbrev pub no_counts : SweepCounts
no_counts = record { renewed = 0; skipped = 0; failed = 0; prepay_skipped = 0 }

-- The `except` clauses: the event of the failure, and the count it adds to.
unfoldable pub log_failure : Subscription → SweepCounts → Error → Exec SweepCounts
unfolding log_renewal_event
log_failure sub counts (skip_renewal skipped_idempotent) =
    log_renewal_event sub.id "skipped_idempotent" none
    >> pure (record counts { skipped = counts.skipped + 1 })
log_failure sub counts (skip_renewal skipped_unpaid) =
    log_renewal_event sub.id "skipped_unpaid" none
    >> pure (record counts { skipped = counts.skipped + 1 })
log_failure sub counts wallet_unavailable =
    log_renewal_event sub.id "failed_wallet" none
    >> pure (record counts { failed = counts.failed + 1 })
log_failure sub counts _ =
    log_renewal_event sub.id "failed_db" none >> pure (record counts { failed = counts.failed + 1 })

-- `Subscription.status == active, Subscription.next_due_at <= now`, without an order.
abbrev pub is_due : ℕ → Subscription → Bool
is_due now s = is_subscription_status s.status SubscriptionStatus.active && leb s.next_due_at now

unfoldable pub due_subscriptions : ℕ → Db → List Subscription
due_subscriptions now db = take batch_size (select (is_due now) db.subscriptions)

-- `trial_end_at <= now`
abbrev trial_over : ℕ → Option ℕ → Bool
trial_over now none = false
trial_over now (some t) = leb t now

unfoldable pub ended_trials : ℕ → Db → List Subscription
ended_trials now db = take batch_size (
    select
      (λ s.
        is_subscription_status s.status SubscriptionStatus.trialing
        && trial_over now s.trial_end_at)
      db.subscriptions)

module _ (wallet : ℕ → RpcReply) (net : Network) (now : ℕ) where
  abbrev pub count_attempt :
      Subscription
      → SweepCounts
      → Result (Option (Invoice × SubscriptionPayment))
      → Exec SweepCounts
  count_attempt sub counts (ok created) = pure (record counts { renewed = counts.renewed + 1 })
  count_attempt sub counts (err e) = log_failure sub counts e

  -- `try: await create_renewal_invoice(db, sub)`
  unfoldable pub attempt_renewal : Subscription → SweepCounts → Exec SweepCounts
  unfolding create_renewal_invoice
  attempt_renewal sub counts db =
      let (r, db') = create_renewal_invoice wallet now sub db in count_attempt sub counts r db'

  -- The body of the inner loop.
  unfoldable pub renew_one : Subscription → SweepCounts → Exec SweepCounts
  unfolding check_prepay_guard
  renew_one sub counts = do
    held ← check_prepay_guard sub
    (if held.0
        then pure (record counts { prepay_skipped = counts.prepay_skipped + 1 })
        else attempt_renewal held.1 counts)

  unfoldable pub renew_each : List Subscription → SweepCounts → Exec SweepCounts
  renew_each [] counts = pure counts
  renew_each (sub ∷ subs) counts = renew_one sub counts >>= renew_each subs

  -- A batch, then the next iteration; `break` where nothing is due.
  abbrev pub on_batch :
      (SweepCounts → Exec (Option SweepCounts))
      → SweepCounts
      → List Subscription
      → Exec (Option SweepCounts)
  on_batch next counts [] = pure (some counts)
  on_batch next counts (sub ∷ subs) = renew_each (sub ∷ subs) counts >>= next

  -- `while True`; `none` when the fuel is used up.
  unfoldable pub renew_loop : ℕ → SweepCounts → Exec (Option SweepCounts)
  unfolding due_subscriptions renew_each
  renew_loop zero counts = pure none
  renew_loop (suc fuel) counts = gets (due_subscriptions now) >>= on_batch (renew_loop fuel) counts

  abbrev pub announce_end : Subscription → Option Merchant → Exec (Unit {0})
  announce_end sub none = pure tt
  announce_end sub (some merchant) =
      dispatch_subscription_event net now "subscription.trial_ended" sub none (some "trial_expired")
      >>= λ _. pure tt

  -- The body of the loop over the trials: 1 if it is counted.
  unfoldable pub activate_trial : Subscription → Exec ℕ
  activate_trial sub =
      try_except
        (lift (transition_subscription_status sub SubscriptionStatus.active) >>= λ moved.
          put_subscription (record moved { next_due_at = now })
          >> (find_merchant sub.merchant_id >>= λ merchant.
              announce_end (record moved { next_due_at = now }) merchant
              >> (tolerate (create_renewal_invoice wallet now (record moved { next_due_at = now }))
                  >> pure 1)))
        (pure 0)

  unfoldable pub activate_each : List Subscription → ℕ → Exec ℕ
  unfolding activate_trial
  activate_each [] count = pure count
  activate_each (sub ∷ subs) count = activate_trial sub >>= λ one. activate_each subs (count + one)

  -- What a sweep returns, if its fuel suffices.
  abbrev Summary : Type 0
  Summary = ℕ × SweepCounts × GraceCounts

  abbrev pub then_grace : ℕ → Option SweepCounts → Exec (Option Summary)
  then_grace trials none = pure none
  then_grace trials (some counts) =
      check_grace_periods net now >>= λ grace. pure (some (trials, counts, grace))

  unfoldable pub run_sweep : ℕ → Exec (Option Summary)
  unfolding ended_trials activate_each renew_loop check_grace_periods
  run_sweep fuel = do
    ended ← gets (ended_trials now)
    trials ← activate_each ended 0
    counts ← renew_loop fuel no_counts
    then_grace trials counts
