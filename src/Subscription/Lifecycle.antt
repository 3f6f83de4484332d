-- ===== src/Subscription/Lifecycle.antt =====
-- The state machine of a subscription.
use ghostbill.Prelude.{◌≡◌, refl, ap, ◌∙◌, ◌⊎◌, true, arith}
use ghostbill.Model.{SubscriptionStatus, Subscription, ok}
use ghostbill.Subscription.{subscription_transitions, transition_subscription_status, is_terminal}

-- Transitions that are made one after the other.
pub data Passes (s : Subscription) : Subscription → Type 0 where
  stays : Passes s s
  moves :
      {t u : Subscription} (target : SubscriptionStatus)
      → Passes s t
      → transition_subscription_status t target ≡ ok u
      → Passes s u

terminal_step :
    (t u : Subscription) (target : SubscriptionStatus)
    → is_terminal t.status ≡ true
    → transition_subscription_status t target ≡ ok u
    → u ≡ t
unfolding transition_subscription_status subscription_transitions
terminal_step t u target over h = ground arith

-- A cancelled or expired subscription is the same after every chain of accepted transitions: no
-- transition brings it back.
pub terminal_stays : {s t : Subscription} → is_terminal s.status ≡ true → Passes s t → t ≡ s
terminal_stays over stays = refl
terminal_stays {s} over (moves {t} {u} target before h) =
    let same = terminal_stays over before in
    terminal_step t u target (ap (λ x. is_terminal x.status) same ∙ over) h ∙ same

-- An accepted transition sets the status and nothing else; expired is reached only from past due or
-- from itself, and trialing only from itself.
pub transition_subscription_status_lem :
    (s t : Subscription) (target : SubscriptionStatus)
    → transition_subscription_status s target ≡ ok t
    → (t ≡ record s { status = target })
      × (target ≡ SubscriptionStatus.expired
          → (s.status ≡ SubscriptionStatus.expired) ⊎ (s.status ≡ SubscriptionStatus.past_due))
      × (target ≡ SubscriptionStatus.trialing → s.status ≡ SubscriptionStatus.trialing)
unfolding transition_subscription_status subscription_transitions
transition_subscription_status_lem s t target h = ground arith
