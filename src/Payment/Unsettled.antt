-- ===== src/Payment/Unsettled.antt =====
-- When a method may leave out the recalculation: the invoice is cancelled, or all statuses agree already.
use ghostbill.Prelude.{ℕ, ◌≡◌, refl, sym, subst, ◌≢◌, true, false, Bool, [], ◌∷◌, arith, select}
use ghostbill.Prelude.Keys.{In, Distinct-key}
use ghostbill.Model.{
  Db, Invoice, InvoiceStatus, is_invoice_status, invoice_has_id, bind_run, ◌>>=◌, ◌>>◌, pure, when,
}
use ghostbill.Payment.{confirmed_sum}
use ghostbill.Payment.Service.{recalculate_invoice_status}
use ghostbill.Payment.Hook.{PaymentHook}
use ghostbill.Payment.Settlement.{Settles}
use ghostbill.Payment.Agreement.{
  IsTidy, IsConsistent, OthersAgree, others_and_one, recalculate-IsConsistent,
}

-- Where only a cancelled invoice may disagree, all agree.
pub cancelled_agrees :
    (db : Db) (invoice : Invoice)
    → In invoice db.invoices
    → invoice.status ≡ InvoiceStatus.cancelled
    → IsTidy db
    → OthersAgree invoice.id db
    → IsConsistent db
cancelled_agrees db invoice there cancelled t others = record {
  tidy = t;
  agree =
      others_and_one db.payments invoice db.invoices others
        (Distinct-key (λ (i : Invoice). i.id) db.invoices t.invoice_ids there)
        (subst (λ s. Settles s (confirmed_sum invoice.id db.payments) invoice.amount_atomic)
          (sym cancelled) tt);
}

pub not_cancelled :
    (s : InvoiceStatus)
    → is_invoice_status s InvoiceStatus.cancelled ≡ false
    → s ≢ InvoiceStatus.cancelled
not_cancelled s h = ground arith

-- A conditional recalculation at the end of a method: it may be left out only where all agree.
pub settle_when :
    (hook : PaymentHook) (now : ℕ) (invoice : Invoice) (d : Db) {R : Type 0} (r : R) (needed : Bool)
    → select (invoice_has_id invoice.id) d.invoices ≡ invoice ∷ []
    → IsTidy d
    → OthersAgree invoice.id d
    → (needed ≡ true → is_invoice_status invoice.status InvoiceStatus.cancelled ≡ false)
    → (needed ≡ false → IsConsistent d)
    → IsConsistent
        ((when needed (recalculate_invoice_status hook now invoice >>= λ _. pure tt) >> pure r) d).1
settle_when hook now invoice d r false row t others live calm = calm refl
settle_when hook now invoice d r true row t others live calm =
    let settled =
      recalculate-IsConsistent hook now invoice invoice d row
        (not_cancelled invoice.status (live refl)) t others in
    bind_run (λ out. IsConsistent out.1)
      (recalculate_invoice_status hook now invoice >>= λ _. pure tt) (λ _. pure r) d
      (λ e _. settled_unit settled) (λ a _. settled_unit settled)
  where
    settled_unit :
        IsConsistent (recalculate_invoice_status hook now invoice d).1
        → IsConsistent
            ((recalculate_invoice_status hook now invoice >>= λ _. pure {A = Unit {0}} tt) d).1
    settled_unit h =
        bind_run (λ out. IsConsistent out.1) (recalculate_invoice_status hook now invoice)
          (λ _. pure tt) d (λ e _. h) (λ a _. h)
