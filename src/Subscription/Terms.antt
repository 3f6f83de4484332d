-- ===== src/Subscription/Terms.antt =====
-- The terms of a subscription, and what the edits of `update_subscription` keep of them.
use ghostbill.Prelude.{◌≤◌, ◌<◌, ◌≡◌, refl, Option, arith, get_or, ◌∙◌}
use ghostbill.Prelude.Int.{ℤ}
use ghostbill.Model.{Subscription, Result, ok, err, Decimal}
use ghostbill.Subscription.{
  Changes, Change, Edit, ◌then_edit◌, edit_amount, edit_interval, edit_grace_soft, edit_grace_hard,
  check_grace, eff_soft, eff_hard,
}

-- The interval, now and after the pending change, is at least a day.
abbrev pub IsPaced : Subscription → Type 0
IsPaced s = (0 < s.interval_days) × (0 < get_or s.pending_interval_days s.interval_days)

-- And the soft grace period is no longer than the hard one, now and after the pending changes.
abbrev pub IsSound : Subscription → Type 0
IsSound s =
    (0 < s.interval_days)
    × (0 < get_or s.pending_interval_days s.interval_days)
    × (s.grace_days_soft ≤ s.grace_days_hard)
    × (eff_soft s ≤ eff_hard s)

-- The terms of the running period.
abbrev pub SameTerms : Subscription → Subscription → Type 0
SameTerms s t =
    (t.amount_atomic ≡ s.amount_atomic)
    × (t.amount_xmr ≡ s.amount_xmr)
    × (t.interval_days ≡ s.interval_days)
    × (t.grace_days_soft ≡ s.grace_days_soft)
    × (t.grace_days_hard ≡ s.grace_days_hard)
    × (t.status ≡ s.status)
    × (t.next_due_at ≡ s.next_due_at)

-- What each part of an update keeps, however it ends.
abbrev pub Keeps : Subscription → Subscription → Type 0
Keeps s t = SameTerms s t × (IsPaced s → IsPaced t)

pub amount-Keeps : (c : Change (Option Decimal)) (s : Subscription) → Keeps s (edit_amount c s).1
unfolding edit_amount
amount-Keeps c s = ground arith

pub interval-Keeps : (c : Change ℤ) (s : Subscription) → Keeps s (edit_interval c s).1
unfolding edit_interval
interval-Keeps c s = ground arith

pub soft-Keeps : (c : Change ℤ) (s : Subscription) → Keeps s (edit_grace_soft c s).1
unfolding edit_grace_soft
soft-Keeps c s = ground arith

pub hard-Keeps : (c : Change ℤ) (s : Subscription) → Keeps s (edit_grace_hard c s).1
unfolding edit_grace_hard
hard-Keeps c s = ground arith

pub Keeps-trans : (s t u : Subscription) → Keeps s t → Keeps t u → Keeps s u
Keeps-trans s t u ((a, x, b, c, d, e, f), p) ((a', x', b', c', d', e', f'), q) =
    ((a' ∙ a, x' ∙ x, b' ∙ b, c' ∙ c, d' ∙ d, e' ∙ e, f' ∙ f), λ h. q (p h))

pub after_edit :
    (out : Result (Unit {0}) × Subscription) (s : Subscription) (f : Edit)
    → Keeps s out.1
    → ((t : Subscription) → Keeps t (f t).1)
    → Keeps s (((λ _. out) then_edit f) s).1
after_edit (ok x, t) s f h k = Keeps-trans s t (f t).1 h (k t)
after_edit (err x, t) s f h k = h

-- An update that is not refused ends with the check of the grace periods.
pub checked :
    (out : Result (Unit {0}) × Subscription) (s : Subscription)
    → (((λ _. out) then_edit check_grace) s).0 ≡ ok tt
    → eff_soft (((λ _. out) then_edit check_grace) s).1
      ≤ eff_hard (((λ _. out) then_edit check_grace) s).1
checked (ok x, t) s h = ground arith
checked (err x, t) s h = cc

-- The edits before the check.
abbrev pub edits : Changes → Edit
edits c =
    edit_amount c.amount_xmr
    then_edit edit_interval c.interval_days
    then_edit edit_grace_soft c.grace_days_soft
    then_edit edit_grace_hard c.grace_days_hard

pub edits-Keeps : (c : Changes) (s : Subscription) → Keeps s (edits c s).1
edits-Keeps c s =
    let one = amount-Keeps c.amount_xmr s in
    let two =
      after_edit (edit_amount c.amount_xmr s) s (edit_interval c.interval_days) one
        (interval-Keeps c.interval_days) in
    let three =
      after_edit _ s (edit_grace_soft c.grace_days_soft) two (soft-Keeps c.grace_days_soft) in
    after_edit _ s (edit_grace_hard c.grace_days_hard) three (hard-Keeps c.grace_days_hard)

pub grace-Keeps : (s : Subscription) → Keeps s (check_grace s).1
grace-Keeps s = ((refl, refl, refl, refl, refl, refl, refl), λ h. h)

pub still_graced :
    (s t : Subscription)
    → SameTerms s t
    → s.grace_days_soft ≤ s.grace_days_hard
    → t.grace_days_soft ≤ t.grace_days_hard
still_graced s t (_, _, _, soft, hard, _, _) h = omega arith
