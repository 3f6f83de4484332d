-- ===== src/Grace.antt =====
-- The payment hook and the grace periods of backend/app/services/subscription_grace.py.
pub mod Hook
use ghostbill.Prelude.{
  ℕ, zero, suc, ◌+◌, Bool, true, false, Option, none, some, List, [], ◌∷◌, ltb, leb, ◌==◌, ◌&&◌,
  if◌then◌else◌, select, any, length, String,
}
use ghostbill.Model.{
  SubscriptionStatus, is_subscription_status, Result, ok, err, Error, Exec, pure, raise, gets, lift,
  ◌>>=◌, ◌>>◌, when, try_except, except_raise, scalar_one_or_none, Db, Invoice, Subscription,
  SubscriptionPayment, find_invoice, find_subscription, put_subscription, days,
}
use ghostbill.Invoice.{is_paid_status}
use ghostbill.Tor.{Network}
use ghostbill.Webhook.{dispatch_subscription_event}
use ghostbill.Subscription.{transition_subscription_status}
use ghostbill.Renewal.{log_renewal_event, is_open}
use ghostbill.Prepayment.{handle_prepay_payment, clear_prepay_invoice, meta_of, pays_invoice}

-- The handler reads the object, which is the row.
abbrev pub clear_stored : Invoice → Option Subscription → Exec (Unit {0})
clear_stored invoice none = pure tt
clear_stored invoice (some sub) = clear_prepay_invoice invoice sub >>= λ _. pure tt

-- `counts`
pub record GraceCounts : Type 0 where
  pub soft : ℕ
  pub hard : ℕ
  pub recovered : ℕ

module _ (net : Network) (now : ℕ) where
  -- `dispatch_subscription_event` under `try`; an exception is logged.
  unfoldable pub try_dispatch : String → Subscription → Option ℕ → Option String → Exec (Unit {0})
  try_dispatch event_type sub invoice_id reason =
      try_except
        (dispatch_subscription_event net now event_type sub invoice_id reason >>= λ _. pure tt)
        (pure tt)

  unfoldable pub on_prepay_invoice : Invoice → Option Subscription → Exec (Unit {0})
  on_prepay_invoice invoice none = pure tt
  on_prepay_invoice invoice (some sub) = do
    handled ←
        except_raise (handle_prepay_payment invoice sub)
          (find_subscription sub.id >>= clear_stored invoice)
    cleared ←
        if is_paid_status invoice.status then clear_prepay_invoice invoice handled else pure handled
    try_dispatch "subscription.prepaid" cleared (some invoice.id) none

  abbrev pub recover : Option Subscription → Exec (Unit {0})
  recover none = pure tt
  recover (some sub) =
      when (is_subscription_status sub.status SubscriptionStatus.past_due)
        (lift (transition_subscription_status sub SubscriptionStatus.active) >>= put_subscription)

  abbrev pub on_period : Option SubscriptionPayment → Exec (Unit {0})
  on_period none = pure tt
  on_period (some sp) = find_subscription sp.subscription_id >>= recover

  abbrev pub prepay_owner : Option ℕ → Exec (Option Subscription)
  prepay_owner none = pure none
  prepay_owner (some subscription_id) = find_subscription subscription_id

  abbrev pub on_invoice : Option Invoice → Exec (Unit {0})
  on_invoice none = pure tt
  on_invoice (some invoice) =
      if (meta_of invoice).prepay
      then prepay_owner (meta_of invoice).subscription_id >>= on_prepay_invoice invoice
      else (λ db.
          (scalar_one_or_none (select (pays_invoice invoice.id) db.subscription_payments), db))
        >>= on_period

  -- The identifiers in the metadata are read as such.
  unfoldable pub handle_subscription_payment : ℕ → Exec (Unit {0})
  unfolding on_prepay_invoice
  handle_subscription_payment invoice_id = find_invoice invoice_id >>= on_invoice

  -- A period of a subscription whose invoice passes a test; `group_by` keeps each subscription once.
  abbrev pub has_period : (SubscriptionPayment → Invoice → Bool) → Db → Subscription → Bool
  has_period test db sub =
      any
        (λ sp.
          sp.subscription_id == sub.id && any (λ i. i.id == sp.invoice_id && test sp i) db.invoices)
        db.subscription_payments

  abbrev pub is_late :
      SubscriptionStatus
      → (Subscription → SubscriptionPayment → Invoice → Bool)
      → Db
      → List Subscription
  is_late status test db =
      select (λ sub. is_subscription_status sub.status status && has_period (test sub) db sub)
        db.subscriptions

  -- The rows of the three queries.
  unfoldable pub soft_late : Db → List Subscription
  soft_late =
      is_late SubscriptionStatus.active
        λ sub sp i. is_open i.status && ltb (sp.period_start + days sub.grace_days_soft) now

  unfoldable pub hard_late : Db → List Subscription
  hard_late = is_late SubscriptionStatus.past_due λ sub sp i.
      is_open i.status
      && ltb (sp.period_start + days sub.grace_days_hard) now
      && leb i.expires_at now

  unfoldable pub recovered : Db → List Subscription
  recovered = is_late SubscriptionStatus.past_due λ sub sp i. is_paid_status i.status

  -- The body of a loop: the transition, its event, and for an expired subscription the webhook.
  unfoldable pub move_one : SubscriptionStatus → String → Bool → Subscription → Exec (Unit {0})
  unfolding try_dispatch
  move_one target result fires sub = do
    moved ← lift (transition_subscription_status sub target)
    put_subscription moved
    log_renewal_event sub.id result none
    when fires (try_dispatch "subscription.expired" moved none (some "hard_grace_exceeded"))

  unfoldable pub move_each :
      SubscriptionStatus → String → Bool → List Subscription → Exec (Unit {0})
  unfolding move_one
  move_each target result fires [] = pure tt
  move_each target result fires (sub ∷ subs) =
      move_one target result fires sub >> move_each target result fires subs

  unfoldable pub check_grace_periods : Exec GraceCounts
  unfolding soft_late
  check_grace_periods = do
    soft ← gets soft_late
    move_each SubscriptionStatus.past_due "grace_soft" false soft
    hard ← gets hard_late
    move_each SubscriptionStatus.expired "grace_hard" true hard
    back ← gets recovered
    move_each SubscriptionStatus.active "grace_recovered" false back
    pure (record { soft = length soft; hard = length hard; recovered = length back })
