-- ===== src/Subscription/Renewing.antt =====
-- The changes that waited, at the renewal.
use ghostbill.Prelude.{ℕ, some, ◌≡◌, Option, none}
use ghostbill.Prelude.Int.{ℤ, pos_part}
use ghostbill.Money.{xmr_to_atomic}
use ghostbill.Model.{Subscription, ok, Decimal}
use ghostbill.Subscription.{Change, unset, clear, set}

-- The amounts after the renewal.
abbrev pub Billed : Change (Option Decimal) → Subscription → Subscription → Type 0
Billed (set (some v)) s t =
    (n : ℤ) × (xmr_to_atomic v ≡ ok n) × (t.amount_atomic ≡ pos_part n) × (t.amount_xmr ≡ v)
Billed (set none) s t = ⊥
Billed clear s t = (t.amount_atomic ≡ s.amount_atomic) × (t.amount_xmr ≡ s.amount_xmr)
Billed unset s t =
    (s.pending_amount_atomic ≡ none
      → (t.amount_atomic ≡ s.amount_atomic) × (t.amount_xmr ≡ s.amount_xmr))
    × ((a : ℕ) (x : Decimal)
        → s.pending_amount_atomic ≡ some a
        → s.pending_amount_xmr ≡ some x
        → (t.amount_atomic ≡ a) × (t.amount_xmr ≡ x))
