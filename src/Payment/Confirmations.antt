-- ===== src/Payment/Confirmations.antt =====
-- `_update_confirmations`: what it returns and writes.
use ghostbill.Prelude.{
  ℕ, ◌≤◌, ◌≡◌, true, false, Bool-cases, inl, inr, ◌⊎◌, List, [], ◌∷◌, ◌++◌, arith, Option, some,
  update_where, select, is_some, ◌&&◌,
}
use ghostbill.Model.{
  Db, Invoice, Payment, PaymentStatus, AuditLog, is_payment_status, ok, invoice_has_id,
  payment_has_id,
}
use ghostbill.Payment.{
  update_confirmations, confirmed_payment, confirmation_changes, crosses_threshold,
}
use ghostbill.Payment.Sums.{share}
use ghostbill.Payment.Writes.{with_payments}

-- An orphaned payment is not updated.
pub update_confirmations-orphaned :
    (now : ℕ) (p : Payment) (confirmations : ℕ) (height : Option ℕ) (db : Db)
    → is_payment_status p.status PaymentStatus.orphaned ≡ true
    → update_confirmations now p confirmations height db ≡ (ok (p, false), db)
unfolding update_confirmations
update_confirmations-orphaned now p confirmations height db orphaned = rw orphaned

-- Any other payment of an invoice that is there is written back, with an audit entry if it crosses
-- the threshold.
pub update_confirmations-live :
    (now : ℕ) (p : Payment) (confirmations : ℕ) (height : Option ℕ) (db : Db) (invoice : Invoice)
    → is_payment_status p.status PaymentStatus.orphaned ≡ false
    → select (invoice_has_id p.invoice_id) db.invoices ≡ invoice ∷ []
    → let after = confirmed_payment now p confirmations height in
      (log : List AuditLog) × (update_confirmations now p confirmations height db ≡ (
        ok (
          after,
          is_payment_status after.status PaymentStatus.confirmed
              && confirmation_changes p confirmations height,
        ),
        with_payments db db.next_id
            (update_where (payment_has_id after.id) (λ _. after) db.payments)
            log,
      ))
unfolding update_confirmations
update_confirmations-live now p confirmations height db invoice live found =
    elim (Bool-cases (crosses_threshold p confirmations)) [
      | inl crosses ↦ (
        db.audit_log
            ++ record {
              merchant_id = some invoice.merchant_id;
              action = "payment.confirmed";
              entity_id = some p.id;
              exception = false;
            }
              ∷ [],
        ground (arith, found),
      )
      | inr stays ↦ (db.audit_log, ground (arith, found))
    ]

-- Confirmations never fall below the old or the reported count; a height that is set stays; the status
-- stays or goes from detected to confirmed at ten or more confirmations, with the time noted; and the
-- invoice, the transaction and the amount stay.
confirmed_payment_lem :
    (now : ℕ) (p : Payment) (confirmations : ℕ) (height : Option ℕ)
    → let after = confirmed_payment now p confirmations height in
      (p.confirmations ≤ after.confirmations)
      × (confirmations ≤ after.confirmations)
      × (is_some p.block_height ≡ true → after.block_height ≡ p.block_height)
      × ((after.status ≡ p.status)
          ⊎ ((p.status ≡ PaymentStatus.detected)
              × (after.status ≡ PaymentStatus.confirmed)
              × (10 ≤ confirmations)
              × (after.confirmed_at ≡ some now)))
      × (after.invoice_id ≡ p.invoice_id)
      × (after.tx_hash ≡ p.tx_hash)
      × (after.amount_atomic ≡ p.amount_atomic)
unfolding confirmed_payment
confirmed_payment_lem now p confirmations height = ground arith

-- A payment that is not confirmed afterwards was not confirmed before.
pub share-unconfirmed :
    (now : ℕ) (p : Payment) (confirmations : ℕ) (height : Option ℕ) (k : ℕ)
    → is_payment_status
        (confirmed_payment now p confirmations height).status
        PaymentStatus.confirmed
      ≡ false
    → share k (confirmed_payment now p confirmations height) ≡ share k p
unfolding confirmed_payment
share-unconfirmed now p confirmations height k h = ground arith
