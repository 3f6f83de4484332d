-- ===== src/Gateway/Unsubscribe.antt =====
-- `cancel_subscription` on the invoices.
use ghostbill.Prelude.{
  ℕ, ◌≡◌, refl, ap, sym, subst, ◌∙◌, List, [], ◌∷◌, some, arith, select, true, false, ◌⊎◌, inl, inr,
  Bool-cases, All, update_where,
}
use ghostbill.Prelude.Keys.{In}
use ghostbill.Model.{
  subscription_has_id, Db, Subscription, SubscriptionStatus, Result, ok, err, Exec, ◌>>=◌, ◌>>◌,
  pure, gets, lift, raise_if, put_subscription, add_audit, bind-ok, subscription_state,
}
use ghostbill.Tor.{Network}
use ghostbill.Invoice.{cancel_invoice}
use ghostbill.Subscription.{
  get_for_update, is_subscription_of, is_terminal, transition_subscription_status,
  subscription_transitions, fire_lifecycle_event,
}
use ghostbill.Subscription.Cancellation.{cancel_subscription, cancel_each, pending_invoices}
use ghostbill.Subscription.Pausing.{fire-IsKept}
use ghostbill.Payment.Agreement.{IsConsistent, unchanged-IsConsistent}
use ghostbill.Gateway.Cancel.{cancel_invoice-IsConsistent}
use ghostbill.Gateway.Unlooped.{after_cancel, cancel_each-step, each_row, loop-Beside}

-- The loop ends normally, whichever invoices could be cancelled, and keeps the invariant.
cancel_each-IsConsistent :
    (merchant_id : ℕ) (ids : List ℕ) (db : Db)
    → IsConsistent db
    → ((cancel_each merchant_id ids db).0 ≡ ok tt) × IsConsistent (cancel_each merchant_id ids db).1
unfolding cancel_each
cancel_each-IsConsistent merchant_id [] db c = (refl, c)
cancel_each-IsConsistent merchant_id (id ∷ ids) db c =
    subst (λ out. (out.0 ≡ ok tt) × IsConsistent out.1)
      (sym (cancel_each-step merchant_id id ids db))
      (cancel_each-IsConsistent merchant_id ids (cancel_invoice merchant_id id db).1
        (cancel_invoice-IsConsistent merchant_id id db c))

ends :
    (s : Subscription)
    → is_terminal s.status ≡ false
    → transition_subscription_status s SubscriptionStatus.cancelled
      ≡ ok (record s { status = SubscriptionStatus.cancelled })
unfolding transition_subscription_status subscription_transitions
ends s h = ground arith

module _ (net : Network) (now merchant_id subscription_id : ℕ) (db : Db) (sub : Subscription)
    (found : select (is_subscription_of merchant_id subscription_id) db.subscriptions
      ≡ sub ∷ []) where
  got : get_for_update merchant_id subscription_id db ≡ (ok sub, db)
  unfolding get_for_update
  got = ground (arith, found)

  -- The row as it is stored.
  abbrev ended_row : Subscription
  ended_row = record sub { status = SubscriptionStatus.cancelled; cancelled_at = some now }

  abbrev finish : Exec Subscription
  finish =
      add_audit (some merchant_id) "subscription.cancelled" (some sub.id)
      >> (fire_lifecycle_event net now "subscription.cancelled" ended_row (some "merchant_action")
          >> pure ended_row)

  -- What an accepted cancellation comes to.
  pub record Ended (out : Result Subscription × Db) : Type 0 where
    returned : out.0 ≡ ok ended_row
    pub consistent : IsConsistent out.1
    subscriptions :
        out.1.subscriptions
        ≡ update_where (subscription_has_id sub.id) (λ _. ended_row) db.subscriptions
    payments : out.1.payments ≡ db.payments
    rows : All (λ j. In (after_cancel merchant_id sub.id db j) out.1.invoices) db.invoices

  finish-Ended :
      (d : Db)
      → IsConsistent d
      → d.subscriptions
        ≡ update_where (subscription_has_id sub.id) (λ _. ended_row) db.subscriptions
      → d.payments ≡ db.payments
      → All (λ j. In (after_cancel merchant_id sub.id db j) d.invoices) db.invoices
      → Ended (finish d)
  finish-Ended d c stored paid rows =
      let logged = (add_audit (some merchant_id) "subscription.cancelled" (some sub.id) d).1 in
      let fire =
        fire_lifecycle_event net now "subscription.cancelled" ended_row (some "merchant_action") in
      let (fired, kept) =
        fire-IsKept net now "subscription.cancelled" ended_row (some "merchant_action") logged in
      let e : finish d ≡ (ok ended_row, (fire logged).1) =
        bind-ok fire (λ _. pure ended_row) logged (ap (λ r. (r, (fire logged).1)) fired) in
      let same : IsConsistent logged = unchanged-IsConsistent refl refl (omega arith) c in
      subst Ended (sym e) (record {
        returned = refl;
        consistent = unchanged-IsConsistent kept.invoices kept.payments kept.next_id same;
        subscriptions = kept.subscriptions ∙ stored;
        payments = kept.payments ∙ paid;
        rows =
            subst (λ is. All (λ j. In (after_cancel merchant_id sub.id db j) is) db.invoices)
              (sym kept.invoices) rows;
      })

  -- From tables that keep the invariant: a merchant's subscription that is there and not over is
  -- cancelled now, in its row of the table and in what is returned, whatever becomes of its invoices
  -- and of the webhook, and no other subscription is changed. Then every invoice of the table that is
  -- of this merchant, pending and of a period of this subscription, and that has no payment but
  -- orphaned ones, is cancelled, every other invoice stays as it was, no payment changes, and the
  -- tables keep the invariant. A cancelled or expired subscription is refused with nothing changed.
  pub cancel_subscription_lem :
      IsConsistent db
      → let out = cancel_subscription net now merchant_id subscription_id db in
        ((is_terminal sub.status ≡ false) × Ended out)
        ⊎ ((is_terminal sub.status ≡ true) × (out ≡ (err subscription_state, db)))
  unfolding cancel_subscription
  cancel_subscription_lem c =
      let rest : Subscription → Exec Subscription = λ s.
        raise_if (is_terminal s.status) subscription_state
        >> (lift (transition_subscription_status s SubscriptionStatus.cancelled) >>= λ t.
            put_subscription (record t { cancelled_at = some now })
            >> (gets (pending_invoices s.id) >>= λ ids.
                cancel_each merchant_id ids
                >> (add_audit (some merchant_id) "subscription.cancelled" (some s.id)
                    >> (fire_lifecycle_event net now "subscription.cancelled"
                          (record t { cancelled_at = some now }) (some "merchant_action")
                        >> pure (record t { cancelled_at = some now }))))) in
      let e = bind-ok (get_for_update merchant_id subscription_id) rest db got in
      elim (Bool-cases (is_terminal sub.status)) [
        | inl over ↦
            let step : rest sub db ≡ (err subscription_state, db) = rw over refl in
            inr (over, e ∙ step)
        | inr running ↦
            let stored = (put_subscription ended_row db).1 in
            let ids = pending_invoices sub.id stored in
            let t = ends sub running in
            let step : rest sub db ≡ (cancel_each merchant_id ids >> finish) stored =
              rw (running, t) refl in
            let tidy = unchanged-IsConsistent refl refl (omega arith) c in
            let (looped, kept) = cancel_each-IsConsistent merchant_id ids stored tidy in
            let after = (cancel_each merchant_id ids stored).1 in
            let last =
              bind-ok (cancel_each merchant_id ids) (λ _. finish) stored
                (ap (λ r. (r, after)) looped) in
            let beside = loop-Beside merchant_id ids stored in
            let done =
              finish-Ended after kept beside.subscriptions beside.payments
                (each_row merchant_id sub.id stored tidy) in
            inl (running, subst Ended (sym (e ∙ step ∙ last)) done)
      ]
