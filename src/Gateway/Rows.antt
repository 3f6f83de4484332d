-- ===== src/Gateway/Rows.antt =====
-- Writes to the invoices table.
use mathlib.Core.List.{map}
use ghostbill.Prelude.{
  ℕ, suc, ◌≤◌, ◌<◌, ◌≡◌, refl, sym, subst, false, List, [], ◌∷◌, ◌++◌, All, arith, update_where,
}
use ghostbill.Prelude.Keys.{
  map-append_one, All-map, All-append_one, All-update_where, All-to_map, Distinct-append_one,
  map-update_where,
}
use ghostbill.Model.{Db, Invoice, InvoiceAddress, AuditLog, Payment, InvoiceStatus, invoice_has_id}
use ghostbill.Payment.{confirmed_sum}
use ghostbill.Payment.Sums.{confirmed_sum-cons, share-other}
use ghostbill.Payment.Settlement.{Agrees, Settles}
use ghostbill.Payment.Agreement.{IsConsistent}

-- An invoice that no payment belongs to has a sum of 0.
confirmed_sum-none :
    (k : ℕ) (ps : List Payment) → All (λ p. p.invoice_id < k) ps → confirmed_sum k ps ≡ 0
confirmed_sum-none k [] h = refl
confirmed_sum-none k (p ∷ ps) (h, hs) = omega (
  arith,
  confirmed_sum-cons k p ps,
  share-other k p (λ e. omega arith),
  confirmed_sum-none k ps hs,
)

-- The tables with other invoices, and what may be written beside them.
abbrev pub with_invoices : Db → ℕ → List Invoice → List InvoiceAddress → List AuditLog → Db
with_invoices db next_id invoices addresses audit_log = record db {
  next_id = next_id;
  invoices = invoices;
  addresses = addresses;
  audit_log = audit_log;
}

module _ (db : Db) (addresses : List InvoiceAddress) (log : List AuditLog)
    (c : IsConsistent db) where
  -- A row of a known id that says the truth takes the place of the old one.
  pub written-IsConsistent :
      (i : Invoice)
      → i.id < db.next_id
      → 0 < i.amount_atomic
      → Agrees db.payments i
      → IsConsistent (
          with_invoices db db.next_id
            (update_where (invoice_has_id i.id) (λ _. i) db.invoices)
            addresses
            log)
  written-IsConsistent i old positive agrees =
      let each : (P : Invoice → Type 0)
          → All P db.invoices
          → P i
          → All P (update_where (invoice_has_id i.id) (λ _. i) db.invoices) =
        λ P all one.
          All-update_where P (invoice_has_id i.id) db.invoices i
            (All-map P (λ x. invoice_has_id i.id x ≡ false → P x) db.invoices (λ x h _. h) all)
            one in
      record {
        tidy = record {
          invoice_ids =
              rw (map-update_where (λ (x : Invoice). x.id) i.id i db.invoices refl)
                c.tidy.invoice_ids;
          payment_ids = c.tidy.payment_ids;
          invoices_old = each (λ x. x.id < db.next_id) c.tidy.invoices_old old;
          payments_old = c.tidy.payments_old;
          owners_old = c.tidy.owners_old;
          positive = each (λ x. 0 < x.amount_atomic) c.tidy.positive positive;
        };
        agree = each (Agrees db.payments) c.agree agrees;
      }

  -- A new pending invoice.
  pub added-IsConsistent :
      (i : Invoice)
      → i.id ≡ db.next_id
      → 0 < i.amount_atomic
      → i.status ≡ InvoiceStatus.pending
      → IsConsistent (with_invoices db (suc db.next_id) (db.invoices ++ i ∷ []) addresses log)
  added-IsConsistent i fresh positive waiting =
      let empty : confirmed_sum i.id db.payments ≡ 0 = confirmed_sum-none i.id db.payments (
        All-map (λ p. p.invoice_id < db.next_id) (λ p. p.invoice_id < i.id) db.payments
          (λ p h. omega arith) c.tidy.owners_old) in
      record {
        tidy = record {
          invoice_ids = rw (map-append_one (λ (x : Invoice). x.id) db.invoices i) (
              Distinct-append_one (map (λ (x : Invoice). x.id) db.invoices) i.id db.next_id
                (All-to_map (λ k. k < db.next_id) (λ x. x.id) db.invoices c.tidy.invoices_old)
                (omega arith) c.tidy.invoice_ids);
          payment_ids = c.tidy.payment_ids;
          invoices_old =
              All-append_one (λ x. x.id < suc db.next_id) db.invoices i
                (All-map (λ x. x.id < db.next_id) (λ x. x.id < suc db.next_id) db.invoices
                  (λ x h. omega arith) c.tidy.invoices_old)
                (omega arith);
          payments_old =
              All-map (λ p. p.id < db.next_id) (λ p. p.id < suc db.next_id) db.payments
                (λ p h. omega arith) c.tidy.payments_old;
          owners_old =
              All-map (λ p. p.invoice_id < db.next_id) (λ p. p.invoice_id < suc db.next_id)
                db.payments (λ p h. omega arith) c.tidy.owners_old;
          positive =
              All-append_one (λ x. 0 < x.amount_atomic) db.invoices i c.tidy.positive positive;
        };
        agree = All-append_one (Agrees db.payments) db.invoices i c.agree (
            subst (λ s. Settles s (confirmed_sum i.id db.payments) i.amount_atomic) (sym waiting)
              empty);
      }

  -- With another count of used ids.
  pub later-IsConsistent :
      (n : ℕ) → db.next_id ≤ n → IsConsistent (with_invoices db n db.invoices addresses log)
  later-IsConsistent n le = record {
    tidy = record {
      invoice_ids = c.tidy.invoice_ids;
      payment_ids = c.tidy.payment_ids;
      invoices_old =
          All-map (λ x. x.id < db.next_id) (λ x. x.id < n) db.invoices (λ x h. omega arith)
            c.tidy.invoices_old;
      payments_old =
          All-map (λ p. p.id < db.next_id) (λ p. p.id < n) db.payments (λ p h. omega arith)
            c.tidy.payments_old;
      owners_old =
          All-map (λ p. p.invoice_id < db.next_id) (λ p. p.invoice_id < n) db.payments
            (λ p h. omega arith) c.tidy.owners_old;
      positive = c.tidy.positive;
    };
    agree = c.agree;
  }
