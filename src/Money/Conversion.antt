-- ===== src/Money/Conversion.antt =====
-- The conversions between XMR and piconero, one after the other.
use native.Mathlib.Nat.{pow-suc, div-add-mod}
use ghostbill.Prelude.{
  ℕ, zero, suc, ◌*◌, ◌/◌, ◌%◌, ◌^◌, ◌≤◌, ◌<◌, ◌≡◌, arith, ltb, Bool-cases, inl, inr,
}
use ghostbill.Prelude.Int.{pos}
use ghostbill.Model.{dec, ok, precision_bound, excess_digits, round_half_even, round_context}
use ghostbill.Money.{piconero, atomic_to_xmr, xmr_to_atomic}

-- A number with at most 28 + j digits has at most j excess digits.
excess_digits-le : (fuel j n : ℕ) → n < precision_bound * 10 ^ j → excess_digits fuel n ≤ j
unfolding excess_digits
excess_digits-le zero j n h = omega arith
excess_digits-le (suc fuel) zero n h = ground arith
excess_digits-le (suc fuel) (suc j) n h = elim (Bool-cases (ltb n precision_bound)) [
  | inl small ↦ rw small (omega arith)
  | inr large ↦
      rw large (omega (arith, excess_digits-le fuel j (n / 10) (omega (arith, pow-suc 10 j))))
]

-- Rounding away digits that are zeros changes nothing.
round_half_even-of_dvd : (k n : ℕ) → 0 < 10 ^ k → n % 10 ^ k ≡ 0 → round_half_even k n ≡ n
unfolding round_half_even
round_half_even-of_dvd k n positive zeros = grind (arith, div-add-mod n (10 ^ k))

-- A multiple of 10^12 ends in zeros.
trailing_zeros : (k a : ℕ) → k ≤ 12 → (0 < 10 ^ k) × (a * piconero % 10 ^ k ≡ 0)
trailing_zeros zero a h = (omega arith, omega arith)
trailing_zeros (suc zero) a h = (omega arith, omega arith)
trailing_zeros (suc (suc zero)) a h = (omega arith, omega arith)
trailing_zeros (suc (suc (suc zero))) a h = (omega arith, omega arith)
trailing_zeros (suc (suc (suc (suc zero)))) a h = (omega arith, omega arith)
trailing_zeros (suc (suc (suc (suc (suc zero))))) a h = (omega arith, omega arith)
trailing_zeros (suc (suc (suc (suc (suc (suc zero)))))) a h = (omega arith, omega arith)
trailing_zeros (suc (suc (suc (suc (suc (suc (suc zero))))))) a h = (omega arith, omega arith)
trailing_zeros (suc (suc (suc (suc (suc (suc (suc (suc zero)))))))) a h = (omega arith, omega arith)
trailing_zeros (suc (suc (suc (suc (suc (suc (suc (suc (suc zero))))))))) a h =
    (omega arith, omega arith)
trailing_zeros (suc (suc (suc (suc (suc (suc (suc (suc (suc (suc zero)))))))))) a h =
    (omega arith, omega arith)
trailing_zeros (suc (suc (suc (suc (suc (suc (suc (suc (suc (suc (suc zero))))))))))) a h =
    (omega arith, omega arith)
trailing_zeros (suc (suc (suc (suc (suc (suc (suc (suc (suc (suc (suc (suc zero)))))))))))) a h =
    (omega arith, omega arith)
trailing_zeros (suc (suc (suc (suc (suc (suc (suc (suc (suc (suc (suc (suc (suc k))))))))))))) a h =
    absurd (omega arith)

round_context-piconero : (a : ℕ) → a < precision_bound → round_context (a * piconero) ≡ a * piconero
unfolding round_context
round_context-piconero a h =
    let (positive, zeros) =
      trailing_zeros _ a (excess_digits-le (a * piconero) 12 (a * piconero) (omega arith)) in
    round_half_even-of_dvd _ (a * piconero) positive zeros

no_digits : (k a : ℕ) → k ≤ 0 → (0 < 10 ^ k) × (a % 10 ^ k ≡ 0)
no_digits zero a h = (omega arith, omega arith)
no_digits (suc k) a h = absurd (omega arith)

pub round_context-small : (a : ℕ) → a < precision_bound → round_context a ≡ a
unfolding round_context
round_context-small a h =
    let (positive, zeros) = no_digits _ a (excess_digits-le a 0 a (omega arith)) in
    round_half_even-of_dvd _ a positive zeros

-- An amount of at most 28 digits is converted exactly, and what is below a piconero is cut off.
pub xmr_to_atomic-cuts :
    (n s : ℕ)
    → n < precision_bound
    → xmr_to_atomic (dec (pos n) s) ≡ ok (pos (n * piconero / 10 ^ s))
unfolding xmr_to_atomic
xmr_to_atomic-cuts n s h = rw (round_context-piconero n h)

-- An amount in piconero of at most 28 digits survives the way to XMR and back.
pub xmr_to_atomic-atomic_to_xmr :
    (a : ℕ) → a < precision_bound → xmr_to_atomic (atomic_to_xmr a) ≡ ok (pos a)
unfolding xmr_to_atomic atomic_to_xmr
xmr_to_atomic-atomic_to_xmr a h =
    rw (round_context-small a h, round_context-piconero a h) (ground arith)
