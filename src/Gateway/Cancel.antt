-- ===== src/Gateway/Cancel.antt =====
-- `cancel_invoice` on the tables.
use ghostbill.Prelude.{
  ℕ, ◌<◌, ◌≡◌, ◌≢◌, refl, ◌⊎◌, inl, inr, false, Bool-cases, ltb, Option, none, some, List, [], ◌∷◌,
  ◌++◌, arith, ap, update_where, select, length, sym, subst,
}
use ghostbill.Prelude.Keys.{All-in, select-In}
use ghostbill.Model.{
  Db, Invoice, InvoiceStatus, is_invoice_status, ok, err, Result, scalar-some, scalar_one_or_none,
  invoice_has_id, is_live_payment_of, invoice_state, AuditLog,
}
use ghostbill.Invoice.{cancel_invoice, get_invoice, is_invoice_of}
use ghostbill.Invoice.Transitions.{is_invoice_status-eq}
use ghostbill.Payment.Agreement.{IsConsistent}
use ghostbill.Gateway.Rows.{written-IsConsistent}

pending_not :
    (s : InvoiceStatus)
    → s ≡ InvoiceStatus.pending
    → ¬ (is_invoice_status s InvoiceStatus.pending ≡ false)
pending_not s e h = ground arith

-- The outcomes of a cancellation of the row that the query finds.
pub cancel_found :
    (merchant_id invoice_id : ℕ) (db : Db) (invoice : Invoice)
    → select (is_invoice_of merchant_id invoice_id) db.invoices ≡ invoice ∷ []
    → let out = cancel_invoice merchant_id invoice_id db in
      let row = record invoice { status = InvoiceStatus.cancelled } in
      let live = length (select (is_live_payment_of invoice_id) db.payments) in
      ((invoice.status ≡ InvoiceStatus.pending)
        × (live ≡ 0)
        × ((log : List AuditLog) × (out ≡ (
          ok row,
          record db {
            invoices = update_where (invoice_has_id invoice.id) (λ _. row) db.invoices;
            audit_log = log;
          },
        ))))
      ⊎ (((invoice.status ≢ InvoiceStatus.pending) ⊎ (live ≢ 0)) × (out ≡ (err invoice_state, db)))
unfolding cancel_invoice get_invoice
cancel_found merchant_id invoice_id db invoice found =
    elim (Bool-cases (is_invoice_status invoice.status InvoiceStatus.pending)) [
      | inr other ↦
          inr (inl (λ e. absurd (pending_not invoice.status e other)), ground (arith, found))
      | inl waiting ↦
          elim (Bool-cases (ltb 0 (length (select (is_live_payment_of invoice_id) db.payments)))) [
            | inl some_paid ↦ inr (inr (λ e. absurd (ground arith)), ground (arith, found))
            | inr unpaid ↦ inl (
              is_invoice_status-eq _ _ waiting,
              ground arith,
              (
                db.audit_log
                    ++ record {
                      merchant_id = some merchant_id;
                      action = "invoice.cancelled";
                      entity_id = some invoice_id;
                      exception = false;
                    }
                      ∷ [],
                ground (arith, found),
              ),
            )
          ]
    ]

module _ (merchant_id invoice_id : ℕ) (db : Db) where
  -- A request to cancel an invoice that the merchant has: if it is pending and has no detected or
  -- confirmed payment, its row is cancelled and returned, and the other invoices and all payments
  -- stay; otherwise the request is refused with nothing changed.
  pub cancel_invoice_lem :
      (invoice : Invoice)
      → select (is_invoice_of merchant_id invoice_id) db.invoices ≡ invoice ∷ []
      → let out = cancel_invoice merchant_id invoice_id db in
        let live = length (select (is_live_payment_of invoice_id) db.payments) in
        ((invoice.status ≡ InvoiceStatus.pending)
          × (live ≡ 0)
          × (out.0 ≡ ok (record invoice { status = InvoiceStatus.cancelled }))
          × (out.1.invoices
              ≡ update_where
                  (invoice_has_id invoice.id)
                  (λ _. record invoice { status = InvoiceStatus.cancelled })
                  db.invoices)
          × (out.1.payments ≡ db.payments))
        ⊎ (((invoice.status ≢ InvoiceStatus.pending) ⊎ (live ≢ 0))
            × (out ≡ (err invoice_state, db)))
  cancel_invoice_lem invoice found = elim (cancel_found merchant_id invoice_id db invoice found) [
    | inl (waiting, unpaid, (log, e)) ↦
        inl (waiting, unpaid, ap (λ o. o.0) e, ap (λ o. o.1.invoices) e, ap (λ o. o.1.payments) e)
    | inr refused ↦ inr refused
  ]

  cancel_row-IsConsistent :
      (invoice : Invoice)
      → select (is_invoice_of merchant_id invoice_id) db.invoices ≡ invoice ∷ []
      → IsConsistent db
      → IsConsistent (cancel_invoice merchant_id invoice_id db).1
  cancel_row-IsConsistent invoice found c =
      let there = select-In (is_invoice_of merchant_id invoice_id) db.invoices found in
      elim (cancel_found merchant_id invoice_id db invoice found) [
        | inl (waiting, unpaid, (log, e)) ↦
            subst (λ o. IsConsistent o.1) (sym e)
              (written-IsConsistent db db.addresses log c
                (record invoice { status = InvoiceStatus.cancelled })
                (All-in (λ i. i.id < db.next_id) there c.tidy.invoices_old)
                (All-in (λ i. 0 < i.amount_atomic) there c.tidy.positive) tt)
        | inr (why, e) ↦ subst (λ o. IsConsistent o.1) (sym e) c
      ]

  cancel_missing-IsConsistent :
      (r : Result (Option Invoice))
      → scalar_one_or_none (select (is_invoice_of merchant_id invoice_id) db.invoices) ≡ r
      → IsConsistent db
      → IsConsistent (cancel_invoice merchant_id invoice_id db).1
  unfolding cancel_invoice get_invoice
  cancel_missing-IsConsistent (err e) h c =
      let same : (cancel_invoice merchant_id invoice_id db).1 ≡ db = ground (arith, h) in
      subst IsConsistent (sym same) c
  cancel_missing-IsConsistent (ok none) h c =
      let same : (cancel_invoice merchant_id invoice_id db).1 ≡ db = ground (arith, h) in
      subst IsConsistent (sym same) c
  cancel_missing-IsConsistent (ok (some invoice)) h c =
      cancel_row-IsConsistent invoice (scalar-some _ invoice h) c

  -- A request to cancel keeps the status of every invoice true to its payments, however it ends.
  pub cancel_invoice-IsConsistent :
      IsConsistent db → IsConsistent (cancel_invoice merchant_id invoice_id db).1
  cancel_invoice-IsConsistent c = cancel_missing-IsConsistent _ refl c
