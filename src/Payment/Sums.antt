-- ===== src/Payment/Sums.antt =====
-- How the sum of the confirmed payments of an invoice changes with the payments table.
use ghostbill.Prelude.{
  ℕ, ◌+◌, ◌≡◌, refl, ap, ◌≢◌, true, Bool-cases, inl, inr, List, [], ◌∷◌, ◌++◌, All, update_where,
  arith, if◌then◌else◌,
}
use ghostbill.Model.{Payment, payment_has_id}
use ghostbill.Payment.{is_confirmed_of, confirmed_sum}

-- What one payment adds to the sum of an invoice.
abbrev pub share : ℕ → Payment → ℕ
share k p = if is_confirmed_of k p then p.amount_atomic else 0

pub confirmed_sum-cons :
    (k : ℕ) (p : Payment) (ps : List Payment)
    → confirmed_sum k (p ∷ ps) ≡ share k p + confirmed_sum k ps
confirmed_sum-cons k p ps = elim (Bool-cases (is_confirmed_of k p)) [
  | inl e ↦ rw e refl
  | inr e ↦ rw e (omega arith)
]

-- A new payment adds its share.
pub confirmed_sum-append :
    (k : ℕ) (ps : List Payment) (p : Payment)
    → confirmed_sum k (ps ++ p ∷ []) ≡ confirmed_sum k ps + share k p
confirmed_sum-append k [] p = omega (arith, confirmed_sum-cons k p [])
confirmed_sum-append k (q ∷ ps) p = omega (
  arith,
  confirmed_sum-cons k q ps,
  confirmed_sum-cons k q (ps ++ p ∷ []),
  confirmed_sum-append k ps p,
)

-- A write to one payment changes no sum to which it and the old row have the same share.
pub confirmed_sum-update :
    (k : ℕ) (old new : Payment) (ps : List Payment)
    → All (λ q. payment_has_id new.id q ≡ true → q ≡ old) ps
    → share k new ≡ share k old
    → confirmed_sum k (update_where (payment_has_id new.id) (λ _. new) ps) ≡ confirmed_sum k ps
confirmed_sum-update k old new [] only e = refl
confirmed_sum-update k old new (q ∷ ps) (o, os) e = elim (Bool-cases (payment_has_id new.id q)) [
  | inl hit ↦ rw hit (
      omega (
        arith,
        confirmed_sum-cons k new (update_where (payment_has_id new.id) (λ _. new) ps),
        confirmed_sum-cons k q ps,
        ap (share k) (o hit),
        confirmed_sum-update k old new ps os e,
      ))
  | inr miss ↦ rw miss (
      omega (
        arith,
        confirmed_sum-cons k q (update_where (payment_has_id new.id) (λ _. new) ps),
        confirmed_sum-cons k q ps,
        confirmed_sum-update k old new ps os e,
      ))
]

-- A payment has no share in another invoice.
pub share-other : (k : ℕ) (p : Payment) → p.invoice_id ≢ k → share k p ≡ 0
share-other k p h = ground arith
