-- ===== src/Subscription/Schedule.antt =====
-- The billing schedule: `calculate_next_due` and `calculate_skipped_periods`.
use native.Mathlib.Nat.{div-add-mod', mod-lt, mul-div_cancel, add-mul}
use ghostbill.Prelude.{
  ℕ, zero, suc, ◌+◌, ◌-◌, ◌*◌, ◌/◌, ◌%◌, ◌≤◌, ◌<◌, ◌≡◌, refl, arith, max, ◌==◌, ap, ◌∙◌, false,
}
use ghostbill.Model.{days}
use ghostbill.Subscription.{ceil_div, calculate_next_due, calculate_skipped_periods}

periods_cover :
    (q r e i : ℕ)
    → q * i + r ≡ e + (i - 1)
    → r < i
    → (1 ≤ max 1 q) × (e ≤ max 1 q * i) × (0 < e → max 1 q * i < e + i)
periods_cover zero r e i h small = (omega arith, omega arith, λ late. omega arith)
periods_cover (suc zero) r e i h small = (omega arith, omega arith, λ late. omega arith)
periods_cover (suc (suc q)) r e i h small =
    let larger : max 1 (suc (suc q)) ≡ suc (suc q) = ground arith in
    let product = ap (λ k. k * i) larger in
    (omega (arith, larger), omega (arith, product), λ late. omega (arith, product))

-- For an interval of at least a day the next due date is a whole number of intervals after the anchor, at
-- least one; it is not before now; and once the anchor has passed it is less than one interval away.
pub calculate_next_due_lem :
    (anchor interval_days now : ℕ)
    → 0 < interval_days
    → let due = calculate_next_due anchor interval_days now in
      (k : ℕ) × (1 ≤ k)
      × (due ≡ anchor + k * days interval_days)
      × (now ≤ due)
      × (anchor < now → due < now + days interval_days)
unfolding calculate_next_due
calculate_next_due_lem anchor n now some_days =
    let i = days n in
    let e = now - anchor in
    let (least, reach, near) =
      periods_cover (ceil_div e i) ((e + (i - 1)) % i) e i (div-add-mod' (e + (i - 1)) i)
        (mod-lt (e + (i - 1)) (omega arith)) in
    let daily : (n == 0) ≡ false = ground arith in
    rw daily
      (max 1 (ceil_div e i), least, refl, omega arith, λ late. omega (arith, near (omega arith)))

-- From one due date to another that is m intervals later, m - 1 periods are skipped.
calculate_skipped_periods_lem :
    (anchor j m interval_days : ℕ)
    → 0 < interval_days
    → calculate_skipped_periods
        (anchor + j * days interval_days)
        (anchor + (j + m) * days interval_days)
        interval_days
      ≡ m - 1
unfolding calculate_skipped_periods
calculate_skipped_periods_lem anchor j m n some_days =
    let i = days n in
    let daily : (n == 0) ≡ false = ground arith in
    let gap : (anchor + (j + m) * i) - (anchor + j * i) ≡ m * i = omega (arith, add-mul j m i) in
    rw daily (ap (λ x. x / i - 1) gap ∙ ap (λ x. x - 1) (mul-div_cancel m (omega arith)))
