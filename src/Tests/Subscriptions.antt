-- ===== src/Tests/Subscriptions.antt =====
-- Subscriptions: the theorems on their state machine, schedule and changes, applied.
use ghostbill.Prelude.{
  true, false, ℕ, ◌≡◌, ◌≢◌, refl, ◌≤◌, ◌<◌, ◌+◌, ◌*◌, ◌⊎◌, none, some, [], ◌∷◌, arith, max,
  update_where,
}
use ghostbill.Prelude.Int.{pos}
use ghostbill.Model.{
  Db, Payment, PaymentStatus, InvoiceStatus, Subscription, SubscriptionStatus, dec, days, ok, err,
  subscription_state, subscription_has_id,
}
use ghostbill.Subscription.{
  is_terminal, calculate_next_due, update_subscription, Changes, unset, clear, set,
  transition_subscription_status, subscription_transitions, resume_subscription,
}
use ghostbill.Subscription.Schedule.{calculate_next_due_lem}
use ghostbill.Subscription.Terms.{IsSound, SameTerms}
use ghostbill.Subscription.Updates.{update_subscription_lem}
use ghostbill.Subscription.Lifecycle.{stays, moves, terminal_stays}
use ghostbill.Subscription.Pausing.{resume_subscription_lem}
use ghostbill.Subscription.Cancellation.{cancel_subscription}
use ghostbill.Payment.Agreement.{IsConsistent}
use ghostbill.Gateway.Unlooped.{after_cancel}
use ghostbill.Gateway.Unsubscribe.{Ended, cancel_subscription_lem}
use ghostbill.Tests.{clear_net, tables, bill, first_part}

-- A monthly subscription with a longer interval waiting for the renewal.
abbrev pub monthly : Subscription
monthly = record {
  id = 4;
  merchant_id = 1;
  customer_id = 9;
  amount_atomic = 500000000;
  amount_xmr = dec (pos 5) 4;
  interval_days = 30;
  status = SubscriptionStatus.active;
  grace_days_soft = 3;
  grace_days_hard = 7;
  next_due_at = 1000;
  cancelled_at = none;
  trial_days = none;
  trial_end_at = none;
  billing_anchor_at = 1000;
  pending_amount_atomic = none;
  pending_amount_xmr = none;
  pending_interval_days = some 60;
  pending_grace_soft = none;
  pending_grace_hard = none;
  prepaid_until = none;
  prepay_invoice_id = none;
  created_at = 0;
}

abbrev pub members : Db
members = record tables { subscriptions = monthly ∷ [] }

abbrev shorter_grace : Changes
shorter_grace = record {
  amount_xmr = unset;
  interval_days = clear;
  grace_days_soft = set (pos 2);
  grace_days_hard = set (pos 2);
}

monthly-IsSound : IsSound monthly
monthly-IsSound = (omega arith, omega arith, omega arith, omega arith)

calculate_next_due_lem_example :
    let due = calculate_next_due 1000 30 5000 in
    (k : ℕ) × (1 ≤ k)
    × (due ≡ 1000 + k * days 30)
    × (5000 ≤ due)
    × (1000 < 5000 → due < 5000 + days 30)
calculate_next_due_lem_example = calculate_next_due_lem 1000 30 5000 (omega arith)

update_subscription_lem_example : SameTerms monthly (update_subscription shorter_grace monthly).1
update_subscription_lem_example = (update_subscription_lem shorter_grace monthly monthly-IsSound).0

abbrev ended : Subscription
ended = record monthly { status = SubscriptionStatus.cancelled }

repeated : transition_subscription_status ended SubscriptionStatus.cancelled ≡ ok ended
unfolding transition_subscription_status
repeated = refl

terminal_stays_example : ended ≡ ended
terminal_stays_example =
    terminal_stays {s = ended} refl (moves SubscriptionStatus.cancelled stays repeated)

late :
    transition_subscription_status monthly SubscriptionStatus.past_due
    ≡ ok (record monthly { status = SubscriptionStatus.past_due })
unfolding transition_subscription_status subscription_transitions
late = refl

abbrev resting : Subscription
resting = record monthly { status = SubscriptionStatus.paused }

abbrev rest_members : Db
rest_members = record tables { subscriptions = resting ∷ [] }

resume_subscription_lem_example :
    let out = resume_subscription clear_net 5000 1 4 rest_members in
    let resumed = record resting {
      status = SubscriptionStatus.active;
      next_due_at = max 5000 1000;
    } in
    ((resting.status ≡ SubscriptionStatus.paused)
      × (out.0 ≡ ok resumed)
      × (5000 ≤ resumed.next_due_at)
      × (out.1.subscriptions
          ≡ update_where (subscription_has_id 4) (λ _. resumed) rest_members.subscriptions))
    ⊎ ((resting.status ≢ SubscriptionStatus.paused)
        × (out ≡ (err subscription_state, rest_members)))
resume_subscription_lem_example =
    resume_subscription_lem clear_net 5000 1 4 rest_members resting refl

-- Ending a subscription with one open invoice, whose payment was orphaned.
abbrev lost : Payment
lost = record first_part { status = PaymentStatus.orphaned }

abbrev billed_members : Db
billed_members = record tables {
  subscriptions = monthly ∷ [];
  payments = lost ∷ [];
  subscription_payments =
      record { id = 1; subscription_id = 4; invoice_id = 2; period_start = 0; period_end = 1000 }
      ∷ [];
}

members-IsConsistent : IsConsistent billed_members
members-IsConsistent = record {
  tidy = record {
    invoice_ids = (tt, tt);
    payment_ids = (tt, tt);
    invoices_old = (omega arith, tt);
    payments_old = (omega arith, tt);
    owners_old = (omega arith, tt);
    positive = (omega arith, tt);
  };
  agree = (refl, tt);
}

cancel_subscription_lem_example :
    let out = cancel_subscription clear_net 50 1 4 billed_members in
    ((is_terminal monthly.status ≡ false) × Ended clear_net 50 1 4 billed_members monthly refl out)
    ⊎ ((is_terminal monthly.status ≡ true) × (out ≡ (err subscription_state, billed_members)))
cancel_subscription_lem_example =
    cancel_subscription_lem clear_net 50 1 4 billed_members monthly refl members-IsConsistent

-- What the theorem says of the invoice there.
cancelled_test :
    after_cancel 1 4 billed_members bill ≡ record bill { status = InvoiceStatus.cancelled }
cancelled_test = refl
