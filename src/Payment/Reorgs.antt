-- ===== src/Payment/Reorgs.antt =====
-- `handle_reorg`: the payment is orphaned, and the invoice's status follows.
use ghostbill.Prelude.{
  ℕ, ◌≡◌, refl, sym, subst, ap, ◌∙◌, true, false, Bool-cases, inl, inr, List, [], ◌∷◌, ◌++◌, All,
  arith, none, some, select, update_where, ==_iff,
}
use ghostbill.Prelude.Keys.{In, select-In, select-test, select-nil, select_key}
use ghostbill.Model.{
  Db, Invoice, InvoiceStatus, Payment, PaymentStatus, AuditLog, is_invoice_status,
  is_payment_status, invoice_has_id, payment_has_id, bind_run, pure,
}
use ghostbill.Invoice.Transitions.{is_invoice_status-eq}
use ghostbill.Payment.Service.{handle_reorg, recalculate_invoice_status, recalculate_found, settle}
use ghostbill.Payment.Hook.{PaymentHook}
use ghostbill.Payment.Settlement.{Agrees, recalculate-settle}
use ghostbill.Payment.Agreement.{IsConsistent, OthersAgree, recalculate-IsConsistent}
use ghostbill.Payment.Writes.{with_payments, written-IsTidy, written-OthersAgree}
use ghostbill.Payment.Unsettled.{cancelled_agrees, not_cancelled}

abbrev orphan : Payment → Payment
orphan p = record p { status = PaymentStatus.orphaned }

-- The tables after the write and the audit entry.
abbrev orphaned_db : Db → Payment → List AuditLog → Db
orphaned_db db p log =
    with_payments db db.next_id (update_where (payment_has_id p.id) (λ _. orphan p) db.payments) log

module _ (hook : PaymentHook) (now : ℕ) (p : Payment) (db : Db) where
  handle_reorg-missing :
      is_payment_status p.status PaymentStatus.orphaned ≡ false
      → select (invoice_has_id p.invoice_id) db.invoices ≡ []
      → (log : List AuditLog) × ((handle_reorg hook now p db).1 ≡ orphaned_db db p log)
  unfolding handle_reorg
  handle_reorg-missing live missing = (
    db.audit_log
        ++ record {
          merchant_id = none;
          action = "payment.orphaned";
          entity_id = some p.id;
          exception = false;
        }
          ∷ [],
    ground (arith, missing),
  )

  handle_reorg-found :
      (invoice : Invoice)
      → is_payment_status p.status PaymentStatus.orphaned ≡ false
      → select (invoice_has_id p.invoice_id) db.invoices ≡ invoice ∷ []
      → (log : List AuditLog) × ((handle_reorg hook now p db).1
          ≡ (recalculate_found hook now (some invoice) (orphaned_db db p log)).1)
  unfolding handle_reorg
  handle_reorg-found invoice live found = (
    db.audit_log
        ++ record {
          merchant_id = some invoice.merchant_id;
          action = "payment.orphaned";
          entity_id = some p.id;
          exception = false;
        }
          ∷ [],
    ground (arith, found),
  )

module _ (hook : PaymentHook) where
  unit_state :
      (now : ℕ) (invoice : Invoice) (d : Db)
      → IsConsistent (recalculate_invoice_status hook now invoice d).1
      → IsConsistent (recalculate_found hook now (some invoice) d).1
  unit_state now invoice d h =
      bind_run (λ out. IsConsistent out.1) (recalculate_invoice_status hook now invoice)
        (λ _. pure tt) d (λ e _. h) (λ a _. h)

  settle-cancelled :
      (now : ℕ) (invoice : Invoice) (d : Db)
      → is_invoice_status invoice.status InvoiceStatus.cancelled ≡ true
      → (settle hook now invoice d).1 ≡ d
  unfolding settle
  settle-cancelled now invoice d cancelled = rw cancelled

  orphaned_invoice :
      (now : ℕ) (p : Payment) (db : Db) (invoice : Invoice) (log : List AuditLog)
      → In p db.payments
      → IsConsistent db
      → select (invoice_has_id p.invoice_id) db.invoices ≡ invoice ∷ []
      → IsConsistent (recalculate_found hook now (some invoice) (orphaned_db db p log)).1
  orphaned_invoice now p db invoice log stored c found =
      let id =
        (==_iff invoice.id p.invoice_id).0
          (select-test (invoice_has_id p.invoice_id) db.invoices found) in
      let row = subst (λ k. select (invoice_has_id k) db.invoices ≡ invoice ∷ []) (sym id) found in
      let d = orphaned_db db p log in
      let tidy = written-IsTidy db p (orphan p) log refl refl stored c.tidy in
      let others =
        subst (λ k. OthersAgree k d) (sym id)
          (written-OthersAgree db p (orphan p) log refl refl stored c.tidy c.agree) in
      unit_state now invoice d
        (elim (Bool-cases (is_invoice_status invoice.status InvoiceStatus.cancelled)) [
          | inl cancelled ↦
              subst IsConsistent
                (sym (
                  ap (λ out. out.1) (recalculate-settle hook now invoice invoice d row)
                  ∙ settle-cancelled now invoice d cancelled))
                (cancelled_agrees d invoice (select-In (invoice_has_id invoice.id) db.invoices row)
                  (is_invoice_status-eq _ _ cancelled) tidy others)
          | inr live ↦
              recalculate-IsConsistent hook now invoice invoice d row
                (not_cancelled invoice.status live) tidy others
        ])

  missing-Agrees :
      (ps : List Payment) (k : ℕ) (is : List Invoice)
      → All (λ i. invoice_has_id k i ≡ false → Agrees ps i) is
      → All (λ i. invoice_has_id k i ≡ false) is
      → All (Agrees ps) is
  missing-Agrees ps k [] h m = tt
  missing-Agrees ps k (i ∷ is) (h, hs) (m, ms) = (h m, missing-Agrees ps k is hs ms)

  all_other :
      (p : Payment) (db : Db) (log : List AuditLog)
      → In p db.payments
      → IsConsistent db
      → select (invoice_has_id p.invoice_id) db.invoices ≡ []
      → IsConsistent (orphaned_db db p log)
  all_other p db log stored c missing = record {
    tidy = written-IsTidy db p (orphan p) log refl refl stored c.tidy;
    agree =
        missing-Agrees (orphaned_db db p log).payments p.invoice_id db.invoices
          (written-OthersAgree db p (orphan p) log refl refl stored c.tidy c.agree)
          (select-nil (invoice_has_id p.invoice_id) db.invoices missing);
  }

  -- From tables in which every invoice's status says the truth about its confirmed payments, the loss
  -- of a recorded payment in a reorganisation leads to such tables.
  pub handle_reorg-IsConsistent :
      (now : ℕ) (p : Payment) (db : Db)
      → In p db.payments
      → IsConsistent db
      → IsConsistent (handle_reorg hook now p db).1
  unfolding handle_reorg
  handle_reorg-IsConsistent now p db stored c =
      elim (Bool-cases (is_payment_status p.status PaymentStatus.orphaned)) [
        | inl orphaned ↦ rw orphaned c
        | inr live ↦
            elim (select_key (λ (i : Invoice). i.id) p.invoice_id db.invoices c.tidy.invoice_ids) [
              | inl missing ↦
                  let (log, e) = handle_reorg-missing hook now p db live missing in
                  subst IsConsistent (sym e) (all_other p db log stored c missing)
              | inr (invoice, found) ↦
                  let (log, e) = handle_reorg-found hook now p db invoice live found in
                  subst IsConsistent (sym e) (orphaned_invoice now p db invoice log stored c found)
            ]
      ]
