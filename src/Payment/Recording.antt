-- ===== src/Payment/Recording.antt =====
-- What `process_transfer` writes to the payments table: a new transaction is recorded once, a known one
-- is brought up to date, and nothing raises.

use ghostbill.Prelude.{
  ℕ, ◌≤◌, ◌<◌, max, ◌≡◌, refl, sym, subst, ◌∙◌, ◌≢◌, ◌⊎◌, true, false, Bool, Bool-cases, inl, inr,
  List, [], ◌∷◌, ◌++◌, arith, Option, none, some, ltb, select, not, ==_iff, update_where,
}
use ghostbill.Prelude.Keys.{select-test}
use ghostbill.Model.{
  Db, Invoice, InvoiceStatus, InvoiceAddress, Payment, PaymentStatus, Result, ok, err,
  is_invoice_status, is_payment_status, invoice_has_id, payment_has_id, bind_run, bind-ok, Exec,
  ◌>>=◌, ◌>>◌, pure, when,
}
use ghostbill.Money.{dust_threshold_atomic}
use ghostbill.Payment.{
  Transfer, create_payment, new_payment, find_invoice_by_subaddress_index, find_payment_by_tx_hash,
  at_subaddress, has_tx_hash, height_of, update_confirmations, confirmed_payment,
  needs_recalculation,
}
use ghostbill.Payment.Service.{
  process_transfer, match_transfer, transfer_to, record_transfer, recalculate_invoice_status,
}
use ghostbill.Payment.Hook.{PaymentHook}
use ghostbill.Payment.Settlement.{recalculate-Applied}
use ghostbill.Payment.Unsettled.{not_cancelled}
use ghostbill.Payment.Confirmations.{update_confirmations-orphaned, update_confirmations-live}

-- The payment that a transfer to an invoice is recorded as.
pub record IsRecord (now : ℕ) (invoice : Invoice) (tx : Transfer) (p : Payment) : Type 0 where
  pub owner : p.invoice_id ≡ invoice.id
  pub transaction : p.tx_hash ≡ tx.txid
  pub amount : p.amount_atomic ≡ tx.amount
  pub count : p.confirmations ≡ tx.confirmations
  pub noticed : p.detected_at ≡ now
  pub settled :
      10 ≤ tx.confirmations → (p.status ≡ PaymentStatus.confirmed) × (p.confirmed_at ≡ some now)
  pub waiting :
      tx.confirmations < 10 → (p.status ≡ PaymentStatus.detected) × (p.confirmed_at ≡ none)
  pub mined : 0 < tx.height → p.block_height ≡ some tx.height
  pub in_pool : tx.height ≡ 0 → p.block_height ≡ none

new_payment-IsRecord :
    (now id : ℕ) (invoice : Invoice) (tx : Transfer)
    → IsRecord now invoice tx (new_payment now id invoice tx)
unfolding new_payment
new_payment-IsRecord now id invoice tx = record {
  owner = refl;
  transaction = refl;
  amount = refl;
  count = refl;
  noticed = refl;
  settled = λ h. ground arith;
  waiting = λ h. ground arith;
  mined = λ h. ground arith;
  in_pool = λ h. ground arith;
}

-- A payment that was not orphaned after another report of its transaction.
pub record IsUpdate (now : ℕ) (tx : Transfer) (old p : Payment) : Type 0 where
  pub same_id : p.id ≡ old.id
  pub owner : p.invoice_id ≡ old.invoice_id
  pub transaction : p.tx_hash ≡ old.tx_hash
  pub amount : p.amount_atomic ≡ old.amount_atomic
  pub noticed : p.detected_at ≡ old.detected_at
  pub count : p.confirmations ≡ max old.confirmations tx.confirmations
  pub settled :
      old.status ≡ PaymentStatus.detected
      → 10 ≤ tx.confirmations
      → (p.status ≡ PaymentStatus.confirmed) × (p.confirmed_at ≡ some now)
  pub waiting :
      (old.status ≢ PaymentStatus.detected) ⊎ (tx.confirmations < 10)
      → (p.status ≡ old.status) × (p.confirmed_at ≡ old.confirmed_at)
  pub mined : (k : ℕ) → old.block_height ≡ some k → p.block_height ≡ some k
  pub newly_mined : old.block_height ≡ none → 0 < tx.height → p.block_height ≡ some tx.height

confirmed_payment-IsUpdate :
    (now : ℕ) (old : Payment) (tx : Transfer)
    → IsUpdate now tx old (confirmed_payment now old tx.confirmations (height_of tx.height))
unfolding confirmed_payment
confirmed_payment-IsUpdate now old tx = record {
  same_id = refl;
  owner = refl;
  transaction = refl;
  amount = refl;
  noticed = refl;
  count = ground arith;
  settled = λ d h. ground arith;
  waiting = λ h. ground arith;
  mined = λ k h. ground arith;
  newly_mined = λ h k. ground arith;
}

-- The run returned `r`, and the payments are these.
abbrev pub Leaves {ℓ} : {R : Type ℓ} → R → List Payment → Result R × Db → Type ℓ
Leaves r payments out = (out.0 ≡ ok r) × (out.1.payments ≡ payments)

module _ (hook : PaymentHook) (now : ℕ) where
  recalculate-Leaves :
      (invoice : Invoice) (d : Db) {R : Type 0} (r : R) (needed : Bool)
      → select (invoice_has_id invoice.id) d.invoices ≡ invoice ∷ []
      → (needed ≡ true → is_invoice_status invoice.status InvoiceStatus.cancelled ≡ false)
      → Leaves r d.payments
          ((when needed (recalculate_invoice_status hook now invoice >>= λ _. pure tt) >> pure r) d)
  recalculate-Leaves invoice d r false row live = (refl, refl)
  recalculate-Leaves invoice d r true row live =
      let a =
        recalculate-Applied hook now invoice invoice d row
          (not_cancelled invoice.status (live refl)) in
      bind_run (λ out. Leaves r d.payments out)
        (recalculate_invoice_status hook now invoice >>= λ _. pure tt) (λ _. pure r) d
        (λ e failed. absurd (never e a.returned failed)) (λ x _. (refl, settled a.payments_kept))
    where
      never :
          (e : _) {after : Invoice}
          → (recalculate_invoice_status hook now invoice d).0 ≡ ok after
          → ¬ (
              ((recalculate_invoice_status hook now invoice >>= λ _. pure {A = Unit {0}} tt) d).0
              ≡ err e)
      never e {after} returned =
          bind_run (λ out. ¬ (out.0 ≡ err e)) (recalculate_invoice_status hook now invoice)
            (λ _. pure tt) d (λ x failed h. cc) (λ x passed h. cc)

      settled :
          (recalculate_invoice_status hook now invoice d).1.payments ≡ d.payments
          → ((recalculate_invoice_status hook now invoice >>= λ _. pure {A = Unit {0}} tt)
              d).1.payments
            ≡ d.payments
      settled h =
          bind_run (λ out. out.1.payments ≡ d.payments)
            (recalculate_invoice_status hook now invoice) (λ _. pure tt) d (λ e _. h) (λ x _. h)

module _ (hook : PaymentHook) (now : ℕ) (tx : Transfer) (db : Db) (a : InvoiceAddress)
    (invoice : Invoice) (at_index : select (at_subaddress tx.major tx.minor) db.addresses ≡ a ∷ [])
    (row : select (invoice_has_id a.invoice_id) db.invoices ≡ invoice ∷ []) where
  own_row : select (invoice_has_id invoice.id) db.invoices ≡ invoice ∷ []
  own_row =
      subst (λ k. select (invoice_has_id k) db.invoices ≡ invoice ∷ [])
        (sym (
          (==_iff invoice.id a.invoice_id).0
            (select-test (invoice_has_id a.invoice_id) db.invoices row)))
        row

  looked_up : find_invoice_by_subaddress_index tx.major tx.minor db ≡ (ok (some invoice), db)
  unfolding find_invoice_by_subaddress_index
  looked_up = ground (arith, at_index, row)

  -- A transfer above the dust threshold is looked up and recorded.
  transferred :
      (existing : Option Payment)
      → dust_threshold_atomic ≤ tx.amount
      → find_payment_by_tx_hash tx.txid db ≡ (ok existing, db)
      → process_transfer hook now tx db ≡ record_transfer hook now tx invoice existing db
  unfolding process_transfer match_transfer
  transferred existing enough known =
      let above : ltb tx.amount dust_threshold_atomic ≡ false = ground arith in
      rw above (
        bind-ok (find_invoice_by_subaddress_index tx.major tx.minor) (transfer_to hook now tx) db
          looked_up
        ∙ bind-ok (find_payment_by_tx_hash tx.txid) (record_transfer hook now tx invoice) db known)

  -- A transfer of at least the dust threshold, to a subaddress that belongs to one invoice, with a
  -- transaction that is not recorded, adds exactly one payment and returns it: for that invoice, with the
  -- transaction, amount, confirmations and height of the transfer, and confirmed now if it has ten or
  -- more confirmations, else detected. No other payment changes. It does so in every status of the
  -- invoice.
  pub process_transfer_records :
      dust_threshold_atomic ≤ tx.amount
      → select (has_tx_hash tx.txid) db.payments ≡ []
      → (p : Payment) × IsRecord now invoice tx p
        × (p.id ≡ db.next_id)
        × Leaves (some p) (db.payments ++ p ∷ []) (process_transfer hook now tx db)
  unfolding record_transfer create_payment find_payment_by_tx_hash new_payment
  process_transfer_records enough unknown = (
    new_payment now db.next_id invoice tx,
    new_payment-IsRecord now db.next_id invoice tx,
    refl,
    rw (transferred none enough (rw unknown refl)) (
        recalculate-Leaves hook now invoice _ (some (new_payment now db.next_id invoice tx))
          (not (is_invoice_status invoice.status InvoiceStatus.cancelled)) own_row
          (λ needed. ground arith)),
  )

  -- A transfer whose transaction is recorded for that invoice adds no payment and raises nothing: an
  -- orphaned payment stays as it is, and any other is written back: its confirmations are the larger of
  -- the old and the reported ones, a detected payment with ten or more reported is confirmed now and else
  -- the status stays, and a height that is set stays.
  pub process_transfer_repeats :
      (existing : Payment)
      → dust_threshold_atomic ≤ tx.amount
      → select (has_tx_hash tx.txid) db.payments ≡ existing ∷ []
      → existing.invoice_id ≡ invoice.id
      → ((existing.status ≡ PaymentStatus.orphaned)
          × Leaves (some existing) db.payments (process_transfer hook now tx db))
        ⊎ ((existing.status ≢ PaymentStatus.orphaned)
            × (after : Payment) × IsUpdate now tx existing after
            × Leaves
                (some after)
                (update_where (payment_has_id existing.id) (λ _. after) db.payments)
                (process_transfer hook now tx db))
  unfolding record_transfer find_payment_by_tx_hash confirmed_payment
  process_transfer_repeats existing enough stored owner =
      let height = height_of tx.height in
      let after = confirmed_payment now existing tx.confirmations height in
      let e = transferred (some existing) enough (rw stored refl) in
      let update = update_confirmations now existing tx.confirmations height in
      let rest : Payment × Bool → Exec (Option Payment) = λ updated.
        when (needs_recalculation invoice updated)
          (recalculate_invoice_status hook now invoice >>= λ _. pure tt)
        >> pure (some updated.0) in
      elim (Bool-cases (is_payment_status existing.status PaymentStatus.orphaned)) [
        | inl orphaned ↦ inl (
          ground arith,
          subst (Leaves (some existing) db.payments)
              (sym (
                e
                ∙ bind-ok update rest db (
                    update_confirmations-orphaned now existing tx.confirmations height db
                      orphaned)))
              (recalculate-Leaves hook now invoice db (some existing)
                (needs_recalculation invoice (existing, false)) own_row (λ needed. ground arith)),
        )
        | inr live ↦
            let (log, written) =
              update_confirmations-live now existing tx.confirmations height db invoice live (
                subst (λ k. select (invoice_has_id k) db.invoices ≡ invoice ∷ []) (sym owner)
                  own_row) in
            inr (
              λ orphaned. absurd (ground arith),
              after,
              confirmed_payment-IsUpdate now existing tx,
              subst
                  (Leaves (some after)
                    (update_where (payment_has_id existing.id) (λ _. after) db.payments))
                  (sym (e ∙ bind-ok update rest db written))
                  (recalculate-Leaves hook now invoice _ (some after) _ own_row
                    (λ needed. ground arith)),
            )
      ]
