-- ===== src/Subscription.antt =====
-- Subscriptions: the state machine of backend/app/services/subscription_exceptions.py, the billing
-- schedule and the pending changes of subscription_renewal.py and subscription_update.py, and the
-- pausing and resuming of subscription_service.py.
pub mod Schedule
pub mod Terms
pub mod Updates
pub mod Renewing
pub mod Lifecycle
pub mod Pausing
pub mod Cancellation
pub mod Creation
pub mod Queries
use ghostbill.Prelude.{
  ℕ, zero, suc, ◌+◌, ◌-◌, ◌*◌, ◌/◌, Bool, true, false, not, Option, none, some, List, [], ◌∷◌, ltb,
  leb, ◌==◌, ◌&&◌, ◌||◌, if◌then◌else◌, is_some, select, any, max, get_or, String,
}
use ghostbill.Prelude.Int.{ℤ, pos, negsuc, ltb_ℤ, pos_part}
use ghostbill.Model.{
  SubscriptionStatus, is_subscription_status, Decimal, Result, ok, err, Error, Exec, pure, raise,
  ◌>>=◌, ◌>>◌, raise_if, try_except, lift, Subscription, put_subscription, scalar_one_or_none, days,
  subscription_state, subscription_validation, subscription_not_found,
}
use ghostbill.Money.{is_nonpositive, xmr_to_atomic}
use ghostbill.Tor.{Network}
use ghostbill.Webhook.{dispatch_subscription_event}

-- `VALID_TRANSITIONS` of subscriptions.
unfoldable pub subscription_transitions : SubscriptionStatus → List SubscriptionStatus
subscription_transitions SubscriptionStatus.active =
    SubscriptionStatus.paused ∷ SubscriptionStatus.past_due ∷ SubscriptionStatus.cancelled ∷ []
subscription_transitions SubscriptionStatus.paused =
    SubscriptionStatus.active ∷ SubscriptionStatus.cancelled ∷ []
subscription_transitions SubscriptionStatus.past_due =
    SubscriptionStatus.active ∷ SubscriptionStatus.expired ∷ SubscriptionStatus.cancelled ∷ []
subscription_transitions SubscriptionStatus.trialing =
    SubscriptionStatus.active ∷ SubscriptionStatus.cancelled ∷ []
subscription_transitions SubscriptionStatus.cancelled = []
subscription_transitions SubscriptionStatus.expired = []

-- `TERMINAL_STATUSES`
abbrev pub is_terminal : SubscriptionStatus → Bool
is_terminal SubscriptionStatus.cancelled = true
is_terminal SubscriptionStatus.expired = true
is_terminal _ = false

unfoldable pub transition_subscription_status :
    Subscription → SubscriptionStatus → Result Subscription
unfolding subscription_transitions
transition_subscription_status sub new_status =
    if is_subscription_status sub.status new_status
    then ok sub
    else if not (any (is_subscription_status new_status) (subscription_transitions sub.status))
    then err subscription_state
    else ok (record sub { status = new_status })

-- `ceil(a / b)`, 0 for a time that is not over; the source divides seconds as floats, here it is exact.
abbrev pub ceil_div : ℕ → ℕ → ℕ
ceil_div a b = (a + (b - 1)) / b

unfoldable pub calculate_next_due : ℕ → ℕ → ℕ → ℕ
calculate_next_due anchor interval_days now =
    if interval_days == 0
    then now
    else anchor + max 1 (ceil_div (now - anchor) (days interval_days)) * days interval_days

-- `max(0, periods_advanced - 1)`; a negative difference of times gives 0 on both ways.
unfoldable pub calculate_skipped_periods : ℕ → ℕ → ℕ → ℕ
calculate_skipped_periods period_start next_due interval_days =
    if interval_days == 0 then 0 else (next_due - period_start) / days interval_days - 1

-- The four `if`s of `apply_pending_changes`. Where an amount is pending without its XMR the old XMR stand
-- here, and the flush refuses the row.
unfoldable pub apply_pending_changes : Subscription → Subscription
apply_pending_changes sub = record sub {
  amount_atomic = get_or sub.pending_amount_atomic sub.amount_atomic;
  amount_xmr = elim sub.pending_amount_atomic [
    | none ↦ sub.amount_xmr
    | some a ↦ get_or sub.pending_amount_xmr sub.amount_xmr
  ];
  pending_amount_atomic = none;
  pending_amount_xmr = elim sub.pending_amount_atomic [
    | none ↦ sub.pending_amount_xmr
    | some a ↦ none
  ];
  interval_days = get_or sub.pending_interval_days sub.interval_days;
  pending_interval_days = none;
  grace_days_soft = get_or sub.pending_grace_soft sub.grace_days_soft;
  pending_grace_soft = none;
  grace_days_hard = get_or sub.pending_grace_hard sub.grace_days_hard;
  pending_grace_hard = none;
}

-- The constraints of the table, which the flush checks, once the pending changes are applied; an amount
-- whose XMR are missing leaves none in `amount_xmr`.
unfoldable pub applied_is_valid : Subscription → Bool
applied_is_valid sub =
    (elim sub.pending_amount_atomic [
      | none ↦ ltb 0 sub.amount_atomic
      | some a ↦ ltb 0 a && is_some sub.pending_amount_xmr
    ])
    && ltb 0 (get_or sub.pending_interval_days sub.interval_days)
    && leb (get_or sub.pending_grace_soft sub.grace_days_soft)
        (get_or sub.pending_grace_hard sub.grace_days_hard)

-- An argument of `update_subscription`: left out, `None`, or a value.
pub data Change {ℓ} (A : Type ℓ) : Type ℓ where
  unset clear : Change A
  set : A → Change A

-- The arguments; an amount is what `Decimal(str(raw))` reads, if it does.
pub record Changes : Type 0 where
  pub amount_xmr : Change (Option Decimal)
  pub interval_days : Change ℤ
  pub grace_days_soft : Change ℤ
  pub grace_days_hard : Change ℤ

-- A part of `update_subscription`: the object is changed in place, also before an exception.
abbrev pub Edit : Type 0
Edit = Subscription → Result (Unit {0}) × Subscription

infixl 5 ◌then_edit◌
abbrev pub ◌then_edit◌ : Edit → Edit → Edit
(e then_edit f) sub = let (r, s) = e sub in elim r [ ok x ↦ f s | err x ↦ (err x, s) ]

abbrev pub with_pending_amount :
    Subscription → Decimal → Result ℤ → Result (Unit {0}) × Subscription
with_pending_amount sub val (err e) = (err e, sub)
with_pending_amount sub val (ok atomic) = (
  ok tt,
  record sub { pending_amount_atomic = some (pos_part atomic); pending_amount_xmr = some val },
)

unfoldable pub edit_amount : Change (Option Decimal) → Edit
edit_amount unset sub = (ok tt, sub)
edit_amount clear sub =
    (ok tt, record sub { pending_amount_atomic = none; pending_amount_xmr = none })
edit_amount (set none) sub = (err subscription_validation, sub)
edit_amount (set (some val)) sub = elim (is_nonpositive val) [
  | err e ↦ (err e, sub)
  | ok true ↦ (err subscription_validation, sub)
  | ok false ↦ with_pending_amount sub val (xmr_to_atomic val)
]

unfoldable pub edit_interval : Change ℤ → Edit
edit_interval unset sub = (ok tt, sub)
edit_interval clear sub = (ok tt, record sub { pending_interval_days = none })
edit_interval (set n) sub =
    if ltb_ℤ n (pos 1)
    then (err subscription_validation, sub)
    else (ok tt, record sub { pending_interval_days = some (pos_part n) })

unfoldable pub edit_grace_soft : Change ℤ → Edit
edit_grace_soft unset sub = (ok tt, sub)
edit_grace_soft clear sub = (ok tt, record sub { pending_grace_soft = none })
edit_grace_soft (set n) sub =
    if ltb_ℤ n (pos 0)
    then (err subscription_validation, sub)
    else (ok tt, record sub { pending_grace_soft = some (pos_part n) })

unfoldable pub edit_grace_hard : Change ℤ → Edit
edit_grace_hard unset sub = (ok tt, sub)
edit_grace_hard clear sub = (ok tt, record sub { pending_grace_hard = none })
edit_grace_hard (set n) sub =
    if ltb_ℤ n (pos 0)
    then (err subscription_validation, sub)
    else (ok tt, record sub { pending_grace_hard = some (pos_part n) })

-- `eff_soft` and `eff_hard`
abbrev pub eff_soft : Subscription → ℕ
eff_soft sub = get_or sub.pending_grace_soft sub.grace_days_soft

abbrev pub eff_hard : Subscription → ℕ
eff_hard sub = get_or sub.pending_grace_hard sub.grace_days_hard

abbrev check_grace : Edit
check_grace sub =
    (if ltb (eff_hard sub) (eff_soft sub) then err subscription_validation else ok tt, sub)

unfoldable pub update_subscription : Changes → Edit
unfolding edit_amount edit_interval edit_grace_soft edit_grace_hard
update_subscription c sub =
    if is_terminal sub.status
    then (err subscription_state, sub)
    else (edit_amount c.amount_xmr
          then_edit edit_interval c.interval_days
          then_edit edit_grace_soft c.grace_days_soft
          then_edit edit_grace_hard c.grace_days_hard
          then_edit check_grace)
        sub

-- `_get_for_update`
abbrev pub is_subscription_of : ℕ → ℕ → Subscription → Bool
is_subscription_of merchant_id subscription_id s =
    s.id == subscription_id && s.merchant_id == merchant_id

abbrev pub or_missing : Option Subscription → Exec Subscription
or_missing none = raise subscription_not_found
or_missing (some sub) = pure sub

unfoldable pub get_for_update : ℕ → ℕ → Exec Subscription
get_for_update merchant_id subscription_id = do
  found ← λ db. (
    scalar_one_or_none (select (is_subscription_of merchant_id subscription_id) db.subscriptions),
    db,
  )
  or_missing found

module _ (net : Network) (now : ℕ) where
  -- `_fire_lifecycle_event` without metadata; an exception is logged and goes no further.
  unfoldable pub fire_lifecycle_event : String → Subscription → Option String → Exec (Unit {0})
  fire_lifecycle_event event_type sub reason =
      try_except (dispatch_subscription_event net now event_type sub none reason >>= λ _. pure tt)
        (pure tt)

  -- What both methods do with the object that they have changed.
  abbrev pub save_and_fire : String → Subscription → Exec Subscription
  save_and_fire event_type sub = do
    put_subscription sub
    fire_lifecycle_event event_type sub (some "merchant_action")
    pure sub

  unfoldable pub pause_subscription : ℕ → ℕ → Exec Subscription
  unfolding get_for_update transition_subscription_status
  pause_subscription merchant_id subscription_id = do
    sub ← get_for_update merchant_id subscription_id
    raise_if (not (is_subscription_status sub.status SubscriptionStatus.active)) subscription_state
    paused ← lift (transition_subscription_status sub SubscriptionStatus.paused)
    save_and_fire "subscription.paused" paused

  -- A due date that has passed is moved to now.
  unfoldable pub resume_subscription : ℕ → ℕ → Exec Subscription
  unfolding get_for_update transition_subscription_status
  resume_subscription merchant_id subscription_id = do
    sub ← get_for_update merchant_id subscription_id
    raise_if (not (is_subscription_status sub.status SubscriptionStatus.paused)) subscription_state
    resumed ← lift (
        transition_subscription_status (record sub { next_due_at = max now sub.next_due_at })
          SubscriptionStatus.active)
    save_and_fire "subscription.resumed" resumed
