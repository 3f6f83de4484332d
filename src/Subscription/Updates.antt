-- ===== src/Subscription/Updates.antt =====
-- Changes to a subscription that wait for its renewal.
use ghostbill.Prelude.{
  ℕ, Bool, false, some, ap, ◌≡◌, refl, inl, inr, true, Bool-cases, Option, none, arith, ◌∙◌,
}
use ghostbill.Prelude.Int.{ℤ, pos_part}
use ghostbill.Money.{xmr_to_atomic, is_nonpositive}
use ghostbill.Model.{
  Subscription, Result, ok, err, subscription_state, subscription_validation, Decimal,
}
use ghostbill.Subscription.{
  update_subscription, Changes, Change, unset, clear, set, with_pending_amount, Edit, ◌then_edit◌,
  edit_amount, edit_interval, edit_grace_soft, edit_grace_hard, check_grace, is_terminal,
}
use ghostbill.Subscription.Terms.{
  after_edit, checked, edits, edits-Keeps, grace-Keeps, still_graced, IsSound, SameTerms,
}

-- What waits after an argument, from what waited before.
abbrev pub asked : Change ℤ → Option ℕ → Option ℕ
asked unset old = old
asked clear old = none
asked (set n) old = some (pos_part n)

abbrev pub AskedAmount : Change (Option Decimal) → Subscription → Subscription → Type 0
AskedAmount unset s t =
    (t.pending_amount_atomic ≡ s.pending_amount_atomic)
    × (t.pending_amount_xmr ≡ s.pending_amount_xmr)
AskedAmount clear s t = (t.pending_amount_atomic ≡ none) × (t.pending_amount_xmr ≡ none)
AskedAmount (set none) s t = ⊥
AskedAmount (set (some v)) s t =
    (n : ℤ) × (xmr_to_atomic v ≡ ok n)
    × (t.pending_amount_atomic ≡ some (pos_part n))
    × (t.pending_amount_xmr ≡ some v)

-- What waits after an accepted update.
pub record Waits (c : Changes) (s t : Subscription) : Type 0 where
  pub amount : AskedAmount c.amount_xmr s t
  pub interval : t.pending_interval_days ≡ asked c.interval_days s.pending_interval_days
  pub soft : t.pending_grace_soft ≡ asked c.grace_days_soft s.pending_grace_soft
  pub hard : t.pending_grace_hard ≡ asked c.grace_days_hard s.pending_grace_hard

-- What waits, as one value.
abbrev Pending : Type 0
Pending = Option ℕ × Option Decimal × Option ℕ × Option ℕ × Option ℕ

abbrev pending : Subscription → Pending
pending s = (
  s.pending_amount_atomic, s.pending_amount_xmr, s.pending_interval_days, s.pending_grace_soft,
  s.pending_grace_hard,
)

priced :
    (v : Decimal) (s : Subscription) (r : Result ℤ)
    → xmr_to_atomic v ≡ r
    → let out = with_pending_amount s v r in
      out.0 ≡ ok tt
      → AskedAmount (set (some v)) s out.1
        × (out.1.pending_interval_days ≡ s.pending_interval_days)
        × (out.1.pending_grace_soft ≡ s.pending_grace_soft)
        × (out.1.pending_grace_hard ≡ s.pending_grace_hard)
priced v s (ok n) e h = ((n, e, refl, refl), refl, refl, refl)
priced v s (err x) e h = cc

tested :
    (v : Decimal) (s : Subscription) (r : Result Bool)
    → let out : Result (Unit {0}) × Subscription = elim r [
      | err e ↦ (err e, s)
      | ok true ↦ (err subscription_validation, s)
      | ok false ↦ with_pending_amount s v (xmr_to_atomic v)
    ] in
      out.0 ≡ ok tt
      → AskedAmount (set (some v)) s out.1
        × (out.1.pending_interval_days ≡ s.pending_interval_days)
        × (out.1.pending_grace_soft ≡ s.pending_grace_soft)
        × (out.1.pending_grace_hard ≡ s.pending_grace_hard)
tested v s (err e) h = cc
tested v s (ok true) h = cc
tested v s (ok false) h = priced v s (xmr_to_atomic v) refl h

amount_waits :
    (c : Change (Option Decimal)) (s : Subscription)
    → (edit_amount c s).0 ≡ ok tt
    → AskedAmount c s (edit_amount c s).1
      × ((edit_amount c s).1.pending_interval_days ≡ s.pending_interval_days)
      × ((edit_amount c s).1.pending_grace_soft ≡ s.pending_grace_soft)
      × ((edit_amount c s).1.pending_grace_hard ≡ s.pending_grace_hard)
unfolding edit_amount
amount_waits unset s h = ((refl, refl), refl, refl, refl)
amount_waits clear s h = ((refl, refl), refl, refl, refl)
amount_waits (set none) s h = cc
amount_waits (set (some v)) s h = tested v s (is_nonpositive v) h

interval_waits :
    (c : Change ℤ) (s : Subscription)
    → (edit_interval c s).0 ≡ ok tt
    → pending (edit_interval c s).1 ≡ (
      s.pending_amount_atomic,
      s.pending_amount_xmr,
      asked c s.pending_interval_days,
      s.pending_grace_soft,
      s.pending_grace_hard,
    )
unfolding edit_interval
interval_waits c s h = ground arith

soft_waits :
    (c : Change ℤ) (s : Subscription)
    → (edit_grace_soft c s).0 ≡ ok tt
    → pending (edit_grace_soft c s).1 ≡ (
      s.pending_amount_atomic,
      s.pending_amount_xmr,
      s.pending_interval_days,
      asked c s.pending_grace_soft,
      s.pending_grace_hard,
    )
unfolding edit_grace_soft
soft_waits c s h = ground arith

hard_waits :
    (c : Change ℤ) (s : Subscription)
    → (edit_grace_hard c s).0 ≡ ok tt
    → pending (edit_grace_hard c s).1 ≡ (
      s.pending_amount_atomic,
      s.pending_amount_xmr,
      s.pending_interval_days,
      s.pending_grace_soft,
      asked c s.pending_grace_hard,
    )
unfolding edit_grace_hard
hard_waits c s h = ground arith

-- A chain of edits that is accepted is its second part after its first.
accepted :
    (out : Result (Unit {0}) × Subscription) (s : Subscription) (f : Edit)
    → (((λ _. out) then_edit f) s).0 ≡ ok tt
    → (out.0 ≡ ok tt) × ((f out.1).0 ≡ ok tt) × ((((λ _. out) then_edit f) s).1 ≡ (f out.1).1)
accepted (ok x, t) s f h = (refl, h, refl)
accepted (err x, t) s f h = cc

moved_amount :
    (c : Change (Option Decimal)) (s t u : Subscription)
    → AskedAmount c s t
    → u.pending_amount_atomic ≡ t.pending_amount_atomic
    → u.pending_amount_xmr ≡ t.pending_amount_xmr
    → AskedAmount c s u
moved_amount unset s t u (a, b) e f = (e ∙ a, f ∙ b)
moved_amount clear s t u (a, b) e f = (e ∙ a, f ∙ b)
moved_amount (set none) s t u a e f = a
moved_amount (set (some v)) s t u (n, p, a, b) e f = (n, p, e ∙ a, f ∙ b)

edits-Waits :
    (c : Changes) (s : Subscription)
    → ((edits c then_edit check_grace) s).0 ≡ ok tt
    → Waits c s ((edits c then_edit check_grace) s).1
edits-Waits c s h =
    let first = edit_amount c.amount_xmr s in
    let second = (edit_amount c.amount_xmr then_edit edit_interval c.interval_days) s in
    let third =
      (edit_amount c.amount_xmr
          then_edit edit_interval c.interval_days
          then_edit edit_grace_soft c.grace_days_soft)
        s in
    let (ok4, _, end) = accepted (edits c s) s check_grace h in
    let (ok3, hard_ok, e3) = accepted third s (edit_grace_hard c.grace_days_hard) ok4 in
    let (ok2, soft_ok, e2) = accepted second s (edit_grace_soft c.grace_days_soft) ok3 in
    let (ok1, interval_ok, e1) = accepted first s (edit_interval c.interval_days) ok2 in
    let (amount, i, f, g) = amount_waits c.amount_xmr s ok1 in
    let p2 = ap pending e1 ∙ interval_waits c.interval_days first.1 interval_ok in
    let p3 = ap pending e2 ∙ soft_waits c.grace_days_soft second.1 soft_ok in
    let p4 = ap pending (end ∙ e3) ∙ hard_waits c.grace_days_hard third.1 hard_ok in
    record {
      amount =
          moved_amount c.amount_xmr s first.1 _ amount
            (ap (λ p. p.0) p4 ∙ ap (λ p. p.0) p3 ∙ ap (λ p. p.0) p2)
            (ap (λ p. p.1) p4 ∙ ap (λ p. p.1) p3 ∙ ap (λ p. p.1) p2);
      interval =
          ap (λ p. p.2) p4 ∙ ap (λ p. p.2) p3 ∙ ap (λ p. p.2) p2 ∙ ap (asked c.interval_days) i;
      soft =
          ap (λ p. p.3) p4 ∙ ap (λ p. p.3) p3 ∙ ap (asked c.grace_days_soft) (ap (λ p. p.3) p2 ∙ f);
      hard =
          ap (λ p. p.4) p4 ∙ ap (asked c.grace_days_hard) (ap (λ p. p.4) p3 ∙ ap (λ p. p.4) p2 ∙ g);
    }

-- An update of a subscription with sound terms changes nothing of the running period, whether it is
-- accepted or refused: neither the amounts, the interval and the grace periods nor the status and the due
-- date. An accepted one leaves the terms sound, the pending ones included, and what waits then is just
-- what was asked for: where an argument is left out what waited before, where it is None nothing, and
-- else its value, an amount in both units. A cancelled or expired subscription is refused unchanged.
pub update_subscription_lem :
    (c : Changes) (s : Subscription)
    → IsSound s
    → let out = update_subscription c s in
      SameTerms s out.1
      × (out.0 ≡ ok tt → IsSound out.1 × Waits c s out.1)
      × (is_terminal s.status ≡ true → out ≡ (err subscription_state, s))
unfolding update_subscription
update_subscription_lem c s (now_paced, paced, graced, sound) =
    elim (Bool-cases (is_terminal s.status)) [
      | inl over ↦ rw over ((refl, refl, refl, refl, refl, refl, refl), λ e. cc, λ _. refl)
      | inr running ↦
          let (same, keeps) = after_edit (edits c s) s check_grace (edits-Keeps c s) grace-Keeps in
          let (p, q) = keeps (now_paced, paced) in
          rw running (
            same,
            λ e. (
              (
                p,
                q,
                still_graced s ((edits c then_edit check_grace) s).1 same graced,
                checked (edits c s) s e,
              ),
              edits-Waits c s e,
            ),
            λ e. cc,
          )
    ]
