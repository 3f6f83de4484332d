-- ===== src/Gateway/Sweep.antt =====
-- The sweep of the subscription renewer on the invoices and payments.
use ghostbill.Prelude.{ℕ, zero, suc, ◌+◌, Option, none, some, List, [], ◌∷◌}
use ghostbill.Model.{
  Invoice, Merchant, Subscription, SubscriptionPayment, Error, skip_renewal, skipped_idempotent,
  skipped_unpaid, wallet_unavailable, Exec, Result, ok, err, Keeps, aside, bind-Keeps, if-Keeps,
  pure-Keeps, read-Keeps, gets,
}
use ghostbill.Tor.{Network}
use ghostbill.Invoice.Wallet.{RpcReply}
use ghostbill.Prepayment.{clear_expired_prepay}
use ghostbill.Renewal.{create_renewal_invoice}
use ghostbill.Renewer.{
  check_prepay_guard, guard_by, guard_of, log_failure, SweepCounts, count_attempt, attempt_renewal,
  renew_one, renew_each, renew_loop, on_batch, due_subscriptions, announce_end, activate_trial,
  activate_each, run_sweep, then_grace,
}
use ghostbill.Grace.Hook.{dispatched-Aside}
use ghostbill.Gateway.Billing.{
  asides, consistent, aside-Consistent, create_renewal_invoice-Consistent, tolerate-Keeps,
  check_grace_periods-Aside,
}

clear_expired_prepay-Aside : (sub : Subscription) → Keeps aside (clear_expired_prepay sub)
unfolding clear_expired_prepay
clear_expired_prepay-Aside sub = search asides

guard_by-Aside : (sub : Subscription) (found : Option Invoice) → Keeps aside (guard_by sub found)
guard_by-Aside sub none = search asides
guard_by-Aside sub (some invoice) = search (clear_expired_prepay-Aside, asides) depth 12

guard_of-Aside : (sub : Subscription) (waits : Option ℕ) → Keeps aside (guard_of sub waits)
guard_of-Aside sub none = search asides
guard_of-Aside sub (some invoice_id) = search (guard_by-Aside, asides)

check_prepay_guard-Aside : (sub : Subscription) → Keeps aside (check_prepay_guard sub)
unfolding check_prepay_guard
check_prepay_guard-Aside sub = guard_of-Aside sub sub.prepay_invoice_id

log_failure-Aside :
    (sub : Subscription) (counts : SweepCounts) (e : Error) → Keeps aside (log_failure sub counts e)
unfolding log_failure
log_failure-Aside sub counts (skip_renewal skipped_idempotent) = search asides
log_failure-Aside sub counts (skip_renewal skipped_unpaid) = search asides
log_failure-Aside sub counts wallet_unavailable = search asides
log_failure-Aside sub counts e = search asides

module _ (wallet : ℕ → RpcReply) (net : Network) (now : ℕ) where
  count_attempt-Aside :
      (sub : Subscription) (counts : SweepCounts)
      (r : Result (Option (Invoice × SubscriptionPayment)))
      → Keeps aside (count_attempt wallet net now sub counts r)
  count_attempt-Aside sub counts (ok created) = search asides
  count_attempt-Aside sub counts (err e) = log_failure-Aside sub counts e

  attempt_renewal-Consistent :
      (sub : Subscription) (counts : SweepCounts)
      → Keeps consistent (attempt_renewal wallet net now sub counts)
  unfolding attempt_renewal
  attempt_renewal-Consistent sub counts = record {
    run = λ db c.
        (aside-Consistent
            (count_attempt-Aside sub counts (create_renewal_invoice wallet now sub db).0)).run
          (create_renewal_invoice wallet now sub db).1
          ((create_renewal_invoice-Consistent wallet now sub).run db c);
  }

  renew_one-Consistent :
      (sub : Subscription) (counts : SweepCounts)
      → Keeps consistent (renew_one wallet net now sub counts)
  unfolding renew_one
  renew_one-Consistent sub counts = search (
    bind-Keeps, if-Keeps, pure-Keeps, attempt_renewal-Consistent, check_prepay_guard-Aside,
    aside-Consistent,
  )

  renew_each-Consistent :
      (subs : List Subscription) (counts : SweepCounts)
      → Keeps consistent (renew_each wallet net now subs counts)
  unfolding renew_each
  renew_each-Consistent [] counts = pure-Keeps
  renew_each-Consistent (sub ∷ subs) counts =
      bind-Keeps {m = renew_one wallet net now sub counts} {f = renew_each wallet net now subs}
        (renew_one-Consistent sub counts) (renew_each-Consistent subs)

  on_batch-Consistent :
      (next : SweepCounts → Exec (Option SweepCounts)) (counts : SweepCounts)
      (subs : List Subscription)
      → ((c : SweepCounts) → Keeps consistent (next c))
      → Keeps consistent (on_batch wallet net now next counts subs)
  on_batch-Consistent next counts [] rest = pure-Keeps
  on_batch-Consistent next counts (sub ∷ subs) rest =
      bind-Keeps {m = renew_each wallet net now (sub ∷ subs) counts} {f = next}
        (renew_each-Consistent (sub ∷ subs) counts) rest

  renew_loop-Consistent :
      (fuel : ℕ) (counts : SweepCounts) → Keeps consistent (renew_loop wallet net now fuel counts)
  unfolding renew_loop
  renew_loop-Consistent zero counts = pure-Keeps
  renew_loop-Consistent (suc fuel) counts =
      bind-Keeps {m = gets (due_subscriptions now)}
        {f = on_batch wallet net now (renew_loop wallet net now fuel) counts} read-Keeps
        (λ subs.
          on_batch-Consistent (renew_loop wallet net now fuel) counts subs
            (renew_loop-Consistent fuel))

  announce_end-Aside :
      (sub : Subscription) (found : Option Merchant)
      → Keeps aside (announce_end wallet net now sub found)
  announce_end-Aside sub none = search asides
  announce_end-Aside sub (some merchant) = search (asides, dispatched-Aside)

  activate_trial-Consistent :
      (sub : Subscription) → Keeps consistent (activate_trial wallet net now sub)
  unfolding activate_trial
  activate_trial-Consistent sub =
      search
        (
          tolerate-Keeps, create_renewal_invoice-Consistent, announce_end-Aside, asides,
          aside-Consistent,
        )
        depth 16

  activate_each-Consistent :
      (subs : List Subscription) (count : ℕ)
      → Keeps consistent (activate_each wallet net now subs count)
  unfolding activate_each
  activate_each-Consistent [] count = pure-Keeps
  activate_each-Consistent (sub ∷ subs) count =
      bind-Keeps {m = activate_trial wallet net now sub}
        {f = λ one. activate_each wallet net now subs (count + one)} (activate_trial-Consistent sub)
        (λ one. activate_each-Consistent subs (count + one))

  then_grace-Consistent :
      (trials : ℕ) (counts : Option SweepCounts)
      → Keeps consistent (then_grace wallet net now trials counts)
  then_grace-Consistent trials none = pure-Keeps
  then_grace-Consistent trials (some counts) =
      search (check_grace_periods-Aside, asides, aside-Consistent)

  -- A sweep keeps the invariant, also one that is stopped in between.
  pub run_sweep-Consistent : (fuel : ℕ) → Keeps consistent (run_sweep wallet net now fuel)
  unfolding run_sweep
  run_sweep-Consistent fuel = search (
    activate_each-Consistent, renew_loop-Consistent, then_grace-Consistent, bind-Keeps, read-Keeps,
  )
