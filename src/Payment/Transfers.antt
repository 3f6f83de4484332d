-- ===== src/Payment/Transfers.antt =====
-- `process_transfer` and the invariant.
use ghostbill.Prelude.{
  ℕ, update_where, ◌≡◌, refl, sym, subst, true, false, Bool, Bool-cases, inl, inr, List, [], ◌∷◌,
  ◌++◌, suc, ◌<◌, All, arith, Option, none, some, ltb, select, ◌&&◌, not, ==_iff,
}
use ghostbill.Prelude.Keys.{In, All-in, All-map, select-In, select-test}
use ghostbill.Model.{
  Db, Invoice, InvoiceStatus, InvoiceAddress, Payment, PaymentStatus, AuditLog, ok,
  is_invoice_status, is_payment_status, invoice_has_id, payment_has_id, bind_run, bind-ok, Exec,
  scalar-some, ◌>>=◌, ◌>>◌, pure, when, scalar_one_or_none,
}
use ghostbill.Money.{dust_threshold_atomic}
use ghostbill.Invoice.Transitions.{is_invoice_status-eq}
use ghostbill.Payment.{
  needs_recalculation, Transfer, create_payment, new_payment, find_invoice_by_subaddress_index,
  find_payment_by_tx_hash, at_subaddress, has_tx_hash, height_of, update_confirmations,
  confirmed_payment, detection_audit,
}
use ghostbill.Payment.Service.{
  transfer_to, match_transfer, process_transfer, record_transfer, recalculate_invoice_status,
}
use ghostbill.Payment.Unsettled.{cancelled_agrees, settle_when}
use ghostbill.Payment.Lookup.{Found, find_invoice-keeps, find_invoice-Found}
use ghostbill.Payment.Hook.{PaymentHook}
use ghostbill.Payment.Settlement.{Agrees}
use ghostbill.Payment.Agreement.{IsTidy, IsConsistent, OthersAgree}
use ghostbill.Payment.Writes.{
  with_payments, added-IsTidy, added-OthersAgree, written-IsTidy, written-OthersAgree,
  written-agree,
}
use ghostbill.Payment.Confirmations.{
  update_confirmations-orphaned, update_confirmations-live, share-unconfirmed,
}

-- The recorded payments with the transaction of a transfer belong to the invoice of its subaddress.
abbrev pub PaysOneInvoice : Transfer → Db → Type 0
PaysOneInvoice tx db =
    All
      (λ (p : Payment).
        has_tx_hash tx.txid p ≡ true
        → All
            (λ (a : InvoiceAddress).
              at_subaddress tx.major tx.minor a ≡ true → p.invoice_id ≡ a.invoice_id)
            db.addresses)
      db.payments

module _ (now : ℕ) (p : Payment) (confirmations : ℕ) (height : Option ℕ) where
  after-id : (confirmed_payment now p confirmations height).id ≡ p.id
  unfolding confirmed_payment
  after-id = refl

  after-owner : (confirmed_payment now p confirmations height).invoice_id ≡ p.invoice_id
  unfolding confirmed_payment
  after-owner = refl

module _ (hook : PaymentHook) (now : ℕ) (tx : Transfer) (invoice : Invoice) (db : Db)
    (consistent : IsConsistent db) (stale_id : ℕ)
    (row : select (invoice_has_id stale_id) db.invoices ≡ invoice ∷ []) where
  there : In invoice db.invoices
  there = select-In (invoice_has_id stale_id) db.invoices row

  id_row : select (invoice_has_id invoice.id) db.invoices ≡ invoice ∷ []
  id_row =
      subst (λ k. select (invoice_has_id k) db.invoices ≡ invoice ∷ [])
        (sym
          ((==_iff invoice.id stale_id).0 (select-test (invoice_has_id stale_id) db.invoices row)))
        row

  new_payment-id : (new_payment now db.next_id invoice tx).id ≡ db.next_id
  unfolding new_payment
  new_payment-id = refl

  new_payment-owner : (new_payment now db.next_id invoice tx).invoice_id ≡ invoice.id
  unfolding new_payment
  new_payment-owner = refl

  -- A new payment.
  new_transfer-IsConsistent : IsConsistent (record_transfer hook now tx invoice none db).1
  unfolding record_transfer create_payment
  new_transfer-IsConsistent =
      let p = new_payment now db.next_id invoice tx in
      let log = db.audit_log ++ detection_audit invoice p ∷ [] in
      let tidy =
        added-IsTidy db p log new_payment-id
          (rw new_payment-owner
            (All-in (λ i. i.id < db.next_id) there consistent.tidy.invoices_old))
          consistent.tidy in
      let others =
        subst (λ k. OthersAgree k (with_payments db (suc db.next_id) (db.payments ++ p ∷ []) log))
          new_payment-owner (added-OthersAgree db p log consistent.agree) in
      settle_when hook now invoice _ (some p)
        (not (is_invoice_status invoice.status InvoiceStatus.cancelled)) id_row tidy others
        (λ needed. ground arith)
        (λ idle.
          cancelled_agrees _ invoice there (is_invoice_status-eq _ _ (ground arith)) tidy others)

  -- Without a recalculation the invoice is cancelled, or the payment is not confirmed and was not.
  known_idle :
      (existing : Payment)
      → In existing db.payments
      → (log : List AuditLog) (changes : Bool)
      → let after = confirmed_payment now existing tx.confirmations (height_of tx.height) in
        let d =
          with_payments db db.next_id
            (update_where (payment_has_id after.id) (λ _. after) db.payments)
            log in
        IsTidy d
        → OthersAgree invoice.id d
        → needs_recalculation invoice
            (after, is_payment_status after.status PaymentStatus.confirmed && changes)
          ≡ false
        → IsConsistent d
  known_idle existing stored log changes tidy others idle =
      let after = confirmed_payment now existing tx.confirmations (height_of tx.height) in
      elim (Bool-cases (is_invoice_status invoice.status InvoiceStatus.cancelled)) [
        | inl cancelled ↦
            cancelled_agrees _ invoice there (is_invoice_status-eq _ _ cancelled) tidy others
        | inr live ↦ record {
          tidy = tidy;
          agree =
              written-agree db existing after log
                (after-id now existing tx.confirmations (height_of tx.height)) stored
                consistent.tidy
                (λ k.
                  share-unconfirmed now existing tx.confirmations (height_of tx.height) k
                    (ground arith))
                consistent.agree;
        }
      ]

  known_transfer-IsConsistent :
      (existing : Payment)
      → In existing db.payments
      → existing.invoice_id ≡ invoice.id
      → IsConsistent (record_transfer hook now tx invoice (some existing) db).1
  unfolding record_transfer
  known_transfer-IsConsistent existing stored owner =
      let height = height_of tx.height in
      let update = update_confirmations now existing tx.confirmations height in
      let rest : Payment × Bool → Exec (Option Payment) = λ updated.
        when (needs_recalculation invoice updated)
          (recalculate_invoice_status hook now invoice >>= λ _. pure tt)
        >> pure (some updated.0) in
      elim (Bool-cases (is_payment_status existing.status PaymentStatus.orphaned)) [
        | inl orphaned ↦
            subst (λ out. IsConsistent out.1)
              (sym (
                bind-ok update rest db
                  (update_confirmations-orphaned now existing tx.confirmations height db orphaned)))
              (settle_when hook now invoice db (some existing)
                (needs_recalculation invoice (existing, false)) id_row consistent.tidy
                (All-map (Agrees db.payments)
                  (λ i. invoice_has_id invoice.id i ≡ false → Agrees db.payments i) db.invoices
                  (λ i h _. h) consistent.agree)
                (λ needed. ground arith) (λ idle. consistent))
        | inr live ↦
            let after = confirmed_payment now existing tx.confirmations height in
            let same_id = after-id now existing tx.confirmations height in
            let same_owner = after-owner now existing tx.confirmations height in
            let (log, e) =
              update_confirmations-live now existing tx.confirmations height db invoice live (
                subst (λ k. select (invoice_has_id k) db.invoices ≡ invoice ∷ []) (sym owner)
                  id_row) in
            let tidy =
              written-IsTidy db existing after log same_id same_owner stored consistent.tidy in
            let others =
              subst
                (λ k. OthersAgree k (
                  with_payments db db.next_id
                    (update_where (payment_has_id after.id) (λ _. after) db.payments) log))
                owner
                (written-OthersAgree db existing after log same_id same_owner stored consistent.tidy
                  consistent.agree) in
            subst (λ out. IsConsistent out.1) (sym (bind-ok update rest db e))
              (settle_when hook now invoice _ (some after) _ id_row tidy others
                (λ needed. ground arith)
                (λ idle. known_idle existing stored log _ tidy others idle))
      ]

module _ (hook : PaymentHook) (now : ℕ) (tx : Transfer) (db : Db) (consistent : IsConsistent db)
    (single : PaysOneInvoice tx db) where
  known_owner :
      (invoice : Invoice) (found : Found tx.major tx.minor db invoice) (existing : Payment)
      → select (has_tx_hash tx.txid) db.payments ≡ existing ∷ []
      → existing.invoice_id ≡ invoice.id
  unfolding Found
  known_owner invoice (a, at_index, row) existing stored =
      let here = select-In (has_tx_hash tx.txid) db.payments stored in
      let hash = select-test (has_tx_hash tx.txid) db.payments stored in
      let index = select-test (at_subaddress tx.major tx.minor) db.addresses at_index in
      let address_here = select-In (at_subaddress tx.major tx.minor) db.addresses at_index in
      let owner =
        All-in (λ b. at_subaddress tx.major tx.minor b ≡ true → existing.invoice_id ≡ b.invoice_id)
          address_here
          (All-in
            (λ p.
              has_tx_hash tx.txid p ≡ true
              → All (λ b. at_subaddress tx.major tx.minor b ≡ true → p.invoice_id ≡ b.invoice_id)
                  db.addresses)
            here single hash)
          index in
      cc (
        owner,
        (==_iff invoice.id a.invoice_id).0
            (select-test (invoice_has_id a.invoice_id) db.invoices row),
      )

  recorded_transfer :
      (invoice : Invoice) (found : Found tx.major tx.minor db invoice) (existing : Option Payment)
      → scalar_one_or_none (select (has_tx_hash tx.txid) db.payments) ≡ ok existing
      → IsConsistent (record_transfer hook now tx invoice existing db).1
  unfolding Found
  recorded_transfer invoice (a, at_index, row) none e =
      new_transfer-IsConsistent hook now tx invoice db consistent a.invoice_id row
  recorded_transfer invoice (a, at_index, row) (some existing) e =
      let stored = scalar-some _ existing e in
      known_transfer-IsConsistent hook now tx invoice db consistent a.invoice_id row existing
        (select-In (has_tx_hash tx.txid) db.payments stored)
        (known_owner invoice (a, at_index, row) existing stored)

  matched_transfer :
      (found : Option Invoice)
      → (find_invoice_by_subaddress_index tx.major tx.minor db).0 ≡ ok found
      → IsConsistent (transfer_to hook now tx found db).1
  unfolding find_payment_by_tx_hash
  matched_transfer none e = consistent
  matched_transfer (some invoice) e =
      bind_run (λ out. IsConsistent out.1) (find_payment_by_tx_hash tx.txid)
        (record_transfer hook now tx invoice) db (λ x failed. consistent)
        (recorded_transfer invoice (find_invoice-Found tx.major tx.minor db invoice e))

module _ (hook : PaymentHook) where
  -- From tables in which every invoice's status says the truth about its confirmed payments, a
  -- transfer leads to such tables, whatever the transfer is and however it ends, if the recorded
  -- payments with its transaction belong to the invoice of its subaddress.
  pub process_transfer-IsConsistent :
      (now : ℕ) (tx : Transfer) (db : Db)
      → IsConsistent db
      → PaysOneInvoice tx db
      → IsConsistent (process_transfer hook now tx db).1
  unfolding process_transfer match_transfer
  process_transfer-IsConsistent now tx db consistent single =
      let find = find_invoice_by_subaddress_index tx.major tx.minor in
      let kept = find_invoice-keeps tx.major tx.minor db in
      elim (Bool-cases (ltb tx.amount dust_threshold_atomic)) [
        | inl dust ↦ rw dust consistent
        | inr enough ↦ rw enough (
            bind_run (λ out. IsConsistent out.1) find (transfer_to hook now tx) db
              (λ e failed. subst IsConsistent (sym kept) consistent)
              (λ found passed.
                subst (λ d. IsConsistent (transfer_to hook now tx found d).1) (sym kept)
                  (matched_transfer hook now tx db consistent single found passed)))
      ]
