-- ===== src/Subscription/Pausing.antt =====
-- Pausing and resuming a subscription.
use ghostbill.Prelude.{
  ℕ, ◌≤◌, ◌≡◌, ◌≢◌, refl, ap, ◌∙◌, ◌⊎◌, inl, inr, true, Bool-cases, not, arith, [], ◌∷◌, Option,
  none, some, String, select, update_where, max,
}
use ghostbill.Model.{
  Db, Subscription, SubscriptionStatus, is_subscription_status, Result, ok, err, subscription_state,
  subscription_has_id, Exec, bind-ok, ◌>>=◌, ◌>>◌, pure, lift, raise_if, try_except,
  WebhookDelivery,
}
use ghostbill.Tor.{Network}
use ghostbill.Webhook.{dispatch_subscription_event}
use ghostbill.Webhook.Queueing.{IsKept, dispatched-IsKept}
use ghostbill.Subscription.{
  get_for_update, is_subscription_of, pause_subscription, resume_subscription, fire_lifecycle_event,
  save_and_fire, transition_subscription_status, subscription_transitions,
}

active_paused :
    (s : Subscription)
    → is_subscription_status s.status SubscriptionStatus.active ≡ true
    → transition_subscription_status s SubscriptionStatus.paused
      ≡ ok (record s { status = SubscriptionStatus.paused })
unfolding transition_subscription_status subscription_transitions
active_paused s h = ground arith

paused_active :
    (s : Subscription)
    → is_subscription_status s.status SubscriptionStatus.paused ≡ true
    → transition_subscription_status s SubscriptionStatus.active
      ≡ ok (record s { status = SubscriptionStatus.active })
unfolding transition_subscription_status subscription_transitions
paused_active s h = ground arith

module _ (net : Network) (now : ℕ) where
  caught :
      (r : Result (Option WebhookDelivery)) (db db' : Db)
      → IsKept db db'
      → let out = try_except ((λ _. (r, db')) >>= λ _. pure {A = Unit {0}} tt) (pure tt) db in
        (out.0 ≡ ok tt) × IsKept db out.1
  caught (ok x) db db' k = (refl, k)
  caught (err e) db db' k = (refl, k)

  -- A webhook that cannot be queued stops nothing.
  pub fire-IsKept :
      (event_type : String) (sub : Subscription) (reason : Option String) (db : Db)
      → let out = fire_lifecycle_event net now event_type sub reason db in
        (out.0 ≡ ok tt) × IsKept db out.1
  unfolding fire_lifecycle_event
  fire-IsKept event_type sub reason db =
      caught (dispatch_subscription_event net now event_type sub none reason db).0 db
        (dispatch_subscription_event net now event_type sub none reason db).1
        (dispatched-IsKept net now event_type sub none reason db)

  saved :
      (event_type : String) (sub : Subscription) (db : Db)
      → let out = save_and_fire net now event_type sub db in
        (out.0 ≡ ok sub)
        × (out.1.subscriptions
            ≡ update_where (subscription_has_id sub.id) (λ _. sub) db.subscriptions)
  saved event_type sub db =
      let written = record db {
        subscriptions = update_where (subscription_has_id sub.id) (λ _. sub) db.subscriptions;
      } in
      let fire = fire_lifecycle_event net now event_type sub (some "merchant_action") in
      let (fired, kept) = fire-IsKept event_type sub (some "merchant_action") written in
      let e : (fire >> pure sub) written ≡ (ok sub, (fire written).1) =
        bind-ok fire (λ _. pure sub) written (ap (λ r. (r, (fire written).1)) fired) in
      (ap (λ out. out.0) e, ap (λ out. out.1.subscriptions) e ∙ kept.subscriptions)

  module _ (merchant_id subscription_id : ℕ) (db : Db) (sub : Subscription)
      (found : select (is_subscription_of merchant_id subscription_id) db.subscriptions
        ≡ sub ∷ []) where
    got : get_for_update merchant_id subscription_id db ≡ (ok sub, db)
    unfolding get_for_update
    got = ground (arith, found)

    -- A merchant's subscription that is active is paused, whatever becomes of the webhook: its row has the
    -- new status and is else the same. In any other status the request is refused with nothing changed.
    pause_subscription_lem :
        let out = pause_subscription net now merchant_id subscription_id db in
        let paused = record sub { status = SubscriptionStatus.paused } in
        ((sub.status ≡ SubscriptionStatus.active)
          × (out.0 ≡ ok paused)
          × (out.1.subscriptions
              ≡ update_where (subscription_has_id sub.id) (λ _. paused) db.subscriptions))
        ⊎ ((sub.status ≢ SubscriptionStatus.active) × (out ≡ (err subscription_state, db)))
    unfolding pause_subscription
    pause_subscription_lem =
        let rest : Subscription → Exec Subscription = λ s.
          raise_if (not (is_subscription_status s.status SubscriptionStatus.active))
            subscription_state
          >> (lift (transition_subscription_status s SubscriptionStatus.paused)
              >>= save_and_fire net now "subscription.paused") in
        let e = bind-ok (get_for_update merchant_id subscription_id) rest db got in
        let paused = record sub { status = SubscriptionStatus.paused } in
        elim (Bool-cases (is_subscription_status sub.status SubscriptionStatus.active)) [
          | inr other ↦
              let step : rest sub db ≡ (err subscription_state, db) = rw other refl in
              inr (λ active. absurd (ground arith), e ∙ step)
          | inl active ↦
              let t : transition_subscription_status sub SubscriptionStatus.paused ≡ ok paused =
                active_paused sub active in
              let step : rest sub db ≡ save_and_fire net now "subscription.paused" paused db =
                rw (active, t) refl in
              let (returned, written) = saved "subscription.paused" paused db in
              inl (
                ground arith,
                ap (λ out. out.0) (e ∙ step) ∙ returned,
                ap (λ out. out.1.subscriptions) (e ∙ step) ∙ written,
              )
        ]

    -- A merchant's subscription that is paused is active again, whatever becomes of the webhook, and its
    -- due date is not in the past. In any other status the request is refused with nothing changed.
    pub resume_subscription_lem :
        let out = resume_subscription net now merchant_id subscription_id db in
        let resumed = record sub {
          status = SubscriptionStatus.active;
          next_due_at = max now sub.next_due_at;
        } in
        ((sub.status ≡ SubscriptionStatus.paused)
          × (out.0 ≡ ok resumed)
          × (now ≤ resumed.next_due_at)
          × (out.1.subscriptions
              ≡ update_where (subscription_has_id sub.id) (λ _. resumed) db.subscriptions))
        ⊎ ((sub.status ≢ SubscriptionStatus.paused) × (out ≡ (err subscription_state, db)))
    unfolding resume_subscription
    resume_subscription_lem =
        let rest : Subscription → Exec Subscription = λ s.
          raise_if (not (is_subscription_status s.status SubscriptionStatus.paused))
            subscription_state
          >> (lift (
                transition_subscription_status (record s { next_due_at = max now s.next_due_at })
                  SubscriptionStatus.active)
              >>= save_and_fire net now "subscription.resumed") in
        let e = bind-ok (get_for_update merchant_id subscription_id) rest db got in
        let later = record sub { next_due_at = max now sub.next_due_at } in
        let resumed = record later { status = SubscriptionStatus.active } in
        elim (Bool-cases (is_subscription_status sub.status SubscriptionStatus.paused)) [
          | inr other ↦
              let step : rest sub db ≡ (err subscription_state, db) = rw other refl in
              inr (λ paused. absurd (ground arith), e ∙ step)
          | inl paused ↦
              let t : transition_subscription_status later SubscriptionStatus.active ≡ ok resumed =
                paused_active later paused in
              let step : rest sub db ≡ save_and_fire net now "subscription.resumed" resumed db =
                rw (paused, t) refl in
              let (returned, written) = saved "subscription.resumed" resumed db in
              inl (
                ground arith,
                ap (λ out. out.0) (e ∙ step) ∙ returned,
                ground arith,
                ap (λ out. out.1.subscriptions) (e ∙ step) ∙ written,
              )
        ]
