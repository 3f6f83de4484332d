-- ===== src/Gateway/Billing.antt =====
-- The subscription services on the invoices and payments.
use ghostbill.Prelude.{ℕ, Bool, Option, none, some, List, [], ◌∷◌, String, refl, arith}
use ghostbill.Model.{
  Db, Invoice, Merchant, Subscription, SubscriptionStatus, Error, Exec, Result, ok, err, raise,
  pure, Frame, Keeps, IsAside, aside, invariant, bind-Keeps, if-Keeps, pure-Keeps, read-Keeps,
  raise-Keeps, try_except-Keeps, put_subscription-Aside, add_audit-Aside, uuid4, modify,
  wallet_unavailable, skip_renewal, ◌>>=◌, ◌>>◌, put_subscription, lift,
}
use ghostbill.Tor.{Network}
use ghostbill.Invoice.{create_invoice, InvoiceRequest}
use ghostbill.Invoice.Wallet.{RpcReply}
use ghostbill.Subscription.{
  fire_lifecycle_event, get_for_update, or_missing, save_and_fire, pause_subscription,
  resume_subscription,
}
use ghostbill.Subscription.Creation.{
  SubscriptionRequest, create_subscription, start_subscription, tolerate, tolerated,
}
use ghostbill.Subscription.Pausing.{fire-IsKept}
use ghostbill.Renewal.{
  create_renewal_invoice, create_renewal_invoice_for, finish_renewal, renew_for,
}
use ghostbill.Prepayment.{create_prepay_invoice, guard_renewal}
use ghostbill.Prepayment.Footprint.{log_renewal_event-Aside, add_subscription_payment-Aside}
use ghostbill.Grace.{check_grace_periods, move_each, move_one}
use ghostbill.Grace.Hook.{try_dispatch-Aside}
use ghostbill.Payment.Agreement.{IsConsistent, unchanged-IsConsistent}
use ghostbill.Gateway.Create.{create_invoice-IsConsistent}

abbrev pub consistent : Frame
consistent = invariant IsConsistent

pub ruleset asides = (
  bind-Keeps, if-Keeps, pure-Keeps, read-Keeps, raise-Keeps, try_except-Keeps,
  put_subscription-Aside, add_audit-Aside, log_renewal_event-Aside, add_subscription_payment-Aside,
)

pub aside-Consistent : {A : Type 0} {m : Exec A} → Keeps aside m → Keeps consistent m
aside-Consistent {m = m} k = record {
  run = λ db c. unchanged-IsConsistent (k.run db).invoices (k.run db).payments (k.run db).next_id c;
}

create_invoice-Consistent :
    (wallet : ℕ → RpcReply) (now : ℕ) (merchant : Merchant) (request : InvoiceRequest)
    → Keeps consistent (create_invoice wallet now merchant request)
create_invoice-Consistent wallet now merchant request = record {
  run = λ db c. create_invoice-IsConsistent wallet now merchant request db c;
}

or_missing-Aside : (found : Option Subscription) → Keeps aside (or_missing found)
or_missing-Aside none = search asides
or_missing-Aside (some sub) = search asides

uuid4-Aside : Keeps aside uuid4
uuid4-Aside = record {
  run = λ db. record { invoices = refl; payments = refl; addresses = refl; next_id = omega arith };
}

get_for_update-Aside :
    (merchant_id subscription_id : ℕ) → Keeps aside (get_for_update merchant_id subscription_id)
unfolding get_for_update
get_for_update-Aside merchant_id subscription_id = search (bind-Keeps, read-Keeps, or_missing-Aside)

-- A write to the table of subscriptions.
written-Aside :
    (f : Db → List Subscription) → Keeps aside (modify λ db. record db { subscriptions = f db })
written-Aside f = record {
  run = λ db. record { invoices = refl; payments = refl; addresses = refl; next_id = omega arith };
}

module _ (wallet : ℕ → RpcReply) (now : ℕ) where
  finish_renewal-Aside :
      (sub : Subscription) (period_start : ℕ) (invoice : Invoice)
      → Keeps aside (finish_renewal now sub period_start invoice)
  unfolding finish_renewal
  finish_renewal-Aside sub period_start invoice = search asides

  pub renewal-Consistent :
      (sub : Subscription) (merchant : Merchant)
      → Keeps consistent (create_renewal_invoice_for wallet now sub merchant)
  unfolding create_renewal_invoice_for
  renewal-Consistent sub merchant =
      search (create_invoice-Consistent, finish_renewal-Aside, asides, aside-Consistent) depth 14

  renew_for-Consistent :
      (sub : Subscription) (merchant : Option Merchant)
      → Keeps consistent (renew_for wallet now sub merchant)
  renew_for-Consistent sub none = search asides
  renew_for-Consistent sub (some merchant) = search (asides, renewal-Consistent)

  -- However the renewal of a subscription ends, the invariant holds as before.
  pub create_renewal_invoice-Consistent :
      (sub : Subscription) → Keeps consistent (create_renewal_invoice wallet now sub)
  unfolding create_renewal_invoice
  create_renewal_invoice-Consistent sub = search (asides, renew_for-Consistent)

module _ (wallet : ℕ → RpcReply) (now : ℕ) (merchant : Merchant) where
  guard_renewal-Aside :
      (sub : Subscription) (periods : ℕ) (invoice : Invoice)
      → Keeps aside (guard_renewal merchant sub periods invoice)
  unfolding guard_renewal
  guard_renewal-Aside sub periods invoice = search asides

  pub create_prepay_invoice-Consistent :
      (subscription_id periods : ℕ)
      → Keeps consistent (create_prepay_invoice wallet now merchant subscription_id periods)
  unfolding create_prepay_invoice
  create_prepay_invoice-Consistent subscription_id periods =
      search
        (
          create_invoice-Consistent, get_for_update-Aside, guard_renewal-Aside, asides,
          aside-Consistent,
        )
        depth 20

module _ {F : Frame} where
  tolerated-Keeps : (e : Error) → Keeps F (tolerated e)
  tolerated-Keeps wallet_unavailable = pure-Keeps
  tolerated-Keeps (skip_renewal reason) = pure-Keeps
  tolerated-Keeps e = raise-Keeps {e = e}

module _ {A : Type 0} where
  tolerate-outcome :
      (F : Frame) (r : Result A) (db db' : Db)
      → F.rel db db'
      → F.rel db (tolerate (λ _. (r, db')) db).1
  tolerate-outcome F (ok a) db db' h = h
  tolerate-outcome F (err e) db db' h = F.after h ((tolerated-Keeps {F = F} e).run db')

  pub tolerate-Keeps : {F : Frame} {m : Exec A} → Keeps F m → Keeps F (tolerate m)
  tolerate-Keeps {F = F} {m = m} k = record {
    run = λ db. tolerate-outcome F (m db).0 db (m db).1 (k.run db);
  }

module _ (net : Network) (now : ℕ) where
  fire-Aside :
      (event_type : String) (sub : Subscription) (reason : Option String)
      → Keeps aside (fire_lifecycle_event net now event_type sub reason)
  fire-Aside event_type sub reason = record {
    run = λ db.
        let k = (fire-IsKept net now event_type sub reason db).1 in
        record {
          invoices = k.invoices;
          payments = k.payments;
          addresses = k.addresses;
          next_id = k.next_id;
        };
  }

  start-Consistent :
      (wallet : ℕ → RpcReply) (merchant : Merchant) (trial : Option ℕ) (next_due : ℕ)
      (sub : Subscription)
      → Keeps consistent (start_subscription wallet net now merchant trial next_due sub)
  unfolding start_subscription
  start-Consistent wallet merchant none next_due sub =
      search (tolerate-Keeps, renewal-Consistent, asides)
  start-Consistent wallet merchant (some trial) next_due sub = search (fire-Aside, aside-Consistent)

  -- Neither does a new subscription, with or without its first invoice.
  pub create_subscription-Consistent :
      (wallet : ℕ → RpcReply) (merchant : Merchant) (r : SubscriptionRequest)
      → Keeps consistent (create_subscription wallet net now merchant r)
  unfolding create_subscription
  create_subscription-Consistent wallet merchant r =
      search (start-Consistent, written-Aside, uuid4-Aside, asides, aside-Consistent) depth 20

  move_one-Aside :
      (target : SubscriptionStatus) (result : String) (fires : Bool) (sub : Subscription)
      → Keeps aside (move_one net now target result fires sub)
  unfolding move_one
  move_one-Aside target result fires sub = search (asides, try_dispatch-Aside) depth 12

  move_each-Aside :
      (target : SubscriptionStatus) (result : String) (fires : Bool) (subs : List Subscription)
      → Keeps aside (move_each net now target result fires subs)
  unfolding move_each
  move_each-Aside target result fires [] = search asides
  move_each-Aside target result fires (sub ∷ subs) =
      bind-Keeps {m = move_one net now target result fires sub}
        {f = λ _. move_each net now target result fires subs}
        (move_one-Aside target result fires sub) (λ _. move_each-Aside target result fires subs)

  pub check_grace_periods-Aside : Keeps aside (check_grace_periods net now)
  unfolding check_grace_periods
  check_grace_periods-Aside = search (move_each-Aside, asides) depth 16

  save_and_fire-Aside :
      (event_type : String) (sub : Subscription)
      → Keeps aside (save_and_fire net now event_type sub)
  save_and_fire-Aside event_type sub = search (fire-Aside, asides)

  pub pause_subscription-Consistent :
      (merchant_id subscription_id : ℕ)
      → Keeps consistent (pause_subscription net now merchant_id subscription_id)
  unfolding pause_subscription
  pause_subscription-Consistent merchant_id subscription_id =
      search (get_for_update-Aside, save_and_fire-Aside, asides, aside-Consistent) depth 12

  pub resume_subscription-Consistent :
      (merchant_id subscription_id : ℕ)
      → Keeps consistent (resume_subscription net now merchant_id subscription_id)
  unfolding resume_subscription
  resume_subscription-Consistent merchant_id subscription_id =
      search (get_for_update-Aside, save_and_fire-Aside, asides, aside-Consistent) depth 12
