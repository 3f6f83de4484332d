-- ===== src/Prepayment/Amount.antt =====
-- `_calculate_prepay_amount`: the discount.
use native.Mathlib.Nat.{mul-le-mul_left}
use ghostbill.Prelude.{
  ℕ, ◌-◌, ◌*◌, ◌/◌, ◌^◌, ◌≤◌, ◌<◌, ◌≡◌, refl, ap, ◌∙◌, arith, ltb, Bool-cases, inl, inr, true,
}
use ghostbill.Prelude.Int.{pos}
use ghostbill.Model.{dec, ok, precision_bound, round_context}
use ghostbill.Money.{piconero, xmr_to_atomic}
use ghostbill.Money.Conversion.{round_context-small, xmr_to_atomic-cuts}
use ghostbill.Prepayment.{calculate_prepay_amount, prepay_total, quantize_down}

to_piconero : (m : ℕ) → m < precision_bound → xmr_to_atomic (dec (pos m) 12) ≡ ok (pos m)
to_piconero m h =
    let whole : m * piconero / 10 ^ 12 ≡ m = omega arith in
    xmr_to_atomic-cuts m 12 h ∙ ap (λ k. ok (pos k)) whole

discounted : (a k : ℕ) → k ≤ 100 → a * k ≤ a * 100
discounted a k h = mul-le-mul_left a h

prepay_total_lem :
    (n periods d : ℕ)
    → n * periods * 100 < precision_bound
    → prepay_total n 12 periods d ≡ ok (dec (pos (n * periods * (100 - d) / 100)) 12)
unfolding prepay_total quantize_down
prepay_total_lem n periods d small =
    let a = n * periods in
    let gross : round_context a ≡ a = round_context-small a (omega arith) in
    elim (Bool-cases (ltb 0 d)) [
      | inl some_discount ↦
          let below = discounted a (100 - d) (omega arith) in
          let net : round_context (a * (100 - d)) ≡ a * (100 - d) =
            round_context-small (a * (100 - d)) (omega (arith, below)) in
          let fits : ltb (a * (100 - d) / 100) precision_bound ≡ true = ground (arith, below) in
          rw (gross, some_discount, net, fits) refl
      | inr no_discount ↦
          let zero_discount : d ≡ 0 = ground arith in
          let all : a * 100 / 100 ≡ a = omega arith in rw (gross, zero_discount) (rw all refl)
    ]

-- An amount of n piconero for a number of periods with a discount of at most 99 per cent is the whole
-- number of piconero below the discounted sum, if the sum has at most 26 digits.
pub calculate_prepay_amount_lem :
    (n periods discount_pct : ℕ)
    → n * periods * 100 < precision_bound
    → discount_pct ≤ 99
    → let total = n * periods * (100 - discount_pct) / 100 in
      calculate_prepay_amount (dec (pos n) 12) periods discount_pct
      ≡ ok (dec (pos total) 12, pos total)
unfolding calculate_prepay_amount
calculate_prepay_amount_lem n periods d small bounded =
    let below = discounted (n * periods) (100 - d) (omega arith) in
    rw
      (
        calculate_prepay_amount,
        prepay_total_lem n periods d small,
        to_piconero (n * periods * (100 - d) / 100) (omega (arith, below)),
      )
      refl
