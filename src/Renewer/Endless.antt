-- ===== src/Renewer/Endless.antt =====
-- The loop of a sweep over subscriptions that stay due.
use ghostbill.Prelude.{
  ℕ, zero, suc, ◌+◌, ◌<◌, ◌≡◌, ◌++◌, refl, sym, ap, subst, ◌∙◌, ◌==◌, none, List, [], ◌∷◌, All,
  select, arith,
}
use ghostbill.Model.{
  Db, Merchant, Subscription, SubscriptionRenewalEvent, Result, ok, err, skip_renewal,
  skipped_unpaid, bind-ok, ◌>>=◌,
}
use ghostbill.Tor.{Network}
use ghostbill.Invoice.Wallet.{RpcReply}
use ghostbill.Renewal.{
  create_renewal_invoice, create_renewal_invoice_for, is_period, unpaid_count, log_renewal_event,
}
use ghostbill.Renewer.{
  SweepCounts, renew_loop, renew_each, renew_one, attempt_renewal, check_prepay_guard, log_failure,
  due_subscriptions,
}

-- A subscription whose next period is not booked while an invoice of another period is still open.
pub record Waits (db : Db) (sub : Subscription) : Type 0 where
  pub merchant : Merchant
  pub owned : select (λ (m : Merchant). m.id == sub.merchant_id) db.merchants ≡ merchant ∷ []
  pub unguarded : sub.prepay_invoice_id ≡ none
  pub fresh : select (is_period sub.id sub.next_due_at) db.subscription_payments ≡ []
  pub unpaid : 0 < unpaid_count sub.id db

-- The tables with other events.
abbrev with_events : Db → List SubscriptionRenewalEvent → Db
with_events db events = record db { renewal_events = events }

module _ (wallet : ℕ → RpcReply) (net : Network) (now : ℕ) (db : Db) where
  refused :
      (sub : Subscription) (events : List SubscriptionRenewalEvent)
      → Waits db sub
      → create_renewal_invoice wallet now sub (with_events db events)
        ≡ (err (skip_renewal skipped_unpaid), with_events db events)
  unfolding create_renewal_invoice create_renewal_invoice_for unpaid_count
  refused sub events w = ground (arith, w.owned, w.fresh, w.unpaid)

  -- The event of a skipped renewal.
  abbrev more_events : Subscription → List SubscriptionRenewalEvent → List SubscriptionRenewalEvent
  more_events sub events =
      events
      ++ record { subscription_id = sub.id; result = "skipped_unpaid"; invoice_id = none } ∷ []

  abbrev one_more : SweepCounts → SweepCounts
  one_more counts = record counts { skipped = counts.skipped + 1 }

  one_stays_due :
      (sub : Subscription) (counts : SweepCounts) (events : List SubscriptionRenewalEvent)
      → Waits db sub
      → renew_one wallet net now sub counts (with_events db events)
        ≡ (ok (one_more counts), with_events db (more_events sub events))
  unfolding renew_one attempt_renewal check_prepay_guard log_failure log_renewal_event
  one_stays_due sub counts events w =
      let step : renew_one wallet net now sub counts (with_events db events)
          ≡ attempt_renewal wallet net now sub counts (with_events db events) =
        rw w.unguarded refl in
      step ∙ rw (refused sub events w) refl

  abbrev EventsOnly : Result SweepCounts × Db → Type 0
  EventsOnly out =
      (counts : SweepCounts) × ((events : List SubscriptionRenewalEvent) × (out
          ≡ (ok counts, with_events db events)))

  each_stay_due :
      (subs : List Subscription) (counts : SweepCounts) (events : List SubscriptionRenewalEvent)
      → All (Waits db) subs
      → EventsOnly (renew_each wallet net now subs counts (with_events db events))
  unfolding renew_each
  each_stay_due [] counts events waits = (counts, (events, refl))
  each_stay_due (sub ∷ subs) counts events (w, ws) =
      let e =
        bind-ok (renew_one wallet net now sub counts) (renew_each wallet net now subs)
          (with_events db events) (one_stays_due sub counts events w) in
      subst EventsOnly (sym e) (each_stay_due subs (one_more counts) (more_events sub events) ws)

  loop_goes_on :
      (fuel : ℕ) (counts : SweepCounts) (events : List SubscriptionRenewalEvent)
      (sub : Subscription) (subs : List Subscription)
      → due_subscriptions now db ≡ sub ∷ subs
      → All (Waits db) (sub ∷ subs)
      → (renew_loop wallet net now fuel counts (with_events db events)).0 ≡ ok none
  unfolding renew_loop due_subscriptions
  loop_goes_on zero counts events sub subs due waits = refl
  loop_goes_on (suc fuel) counts events sub subs due waits =
      let (counts', (events', e)) = each_stay_due (sub ∷ subs) counts events waits in
      let chosen : renew_loop wallet net now (suc fuel) counts (with_events db events)
          ≡ (renew_each wallet net now (sub ∷ subs) counts >>= renew_loop wallet net now fuel)
              (with_events db events) =
        rw due refl in
      let next =
        bind-ok (renew_each wallet net now (sub ∷ subs) counts) (renew_loop wallet net now fuel)
          (with_events db events) e in
      ap (λ out. out.0) (chosen ∙ next) ∙ loop_goes_on fuel counts' events' sub subs due waits

  -- Where some subscription is due and every one of the batch has an open invoice of an earlier period,
  -- the loop of the sweep never comes to its break: whatever the number of iterations, another follows.
  pub renew_loop_endless :
      (fuel : ℕ) (counts : SweepCounts) (sub : Subscription) (subs : List Subscription)
      → due_subscriptions now db ≡ sub ∷ subs
      → All (Waits db) (sub ∷ subs)
      → (renew_loop wallet net now fuel counts db).0 ≡ ok none
  renew_loop_endless fuel counts sub subs due waits =
      loop_goes_on fuel counts db.renewal_events sub subs due waits
