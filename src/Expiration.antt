-- ===== src/Expiration.antt =====
-- `ExpirationService` of backend/app/services/expiration_service.py.
pub mod Deadline
use ghostbill.Prelude.{
  ℕ, Bool, true, false, not, Option, none, some, List, [], ◌∷◌, ◌++◌, ltb, ◌==◌, ◌&&◌, select,
  update_where, any, map, String,
}
use ghostbill.Model.{
  InvoiceStatus, is_invoice_status, ok, Exec, pure, gets, ◌>>=◌, ◌>>◌, modify, add_audit, Db,
  Invoice, Payment, Merchant, is_live_payment_of, WebhookDelivery,
}
use ghostbill.Tor.{Network}
use ghostbill.Webhook.{dispatch_events}

-- The condition of the update: pending, past its time, and with no detected or confirmed payment.
unfoldable pub is_overdue : ℕ → List Payment → Invoice → Bool
is_overdue now payments i =
    is_invoice_status i.status InvoiceStatus.pending
    && ltb i.expires_at now
    && not (any (is_live_payment_of i.id) payments)

abbrev pub expired_row : Invoice → Invoice
expired_row i = record i { status = InvoiceStatus.expired }

abbrev pub expire_rows : ℕ → Db → Db
expire_rows now db = record db {
  invoices = update_where (is_overdue now db.payments) expired_row db.invoices;
}

abbrev audit_each : List Invoice → Exec (Unit {0})
audit_each [] = pure tt
audit_each (i ∷ is) = add_audit (some i.merchant_id) "invoice.expired" (some i.id) >> audit_each is

module _ (net : Network) (now : ℕ) where
  abbrev announce_to : Invoice → List Merchant → Exec (Unit {0})
  announce_to i [] = pure tt
  announce_to i (m ∷ ms) =
      dispatch_events net now ("invoice.expired" ∷ []) m i none >>= λ _. announce_to i ms

  -- Each expired invoice joined with its merchant.
  abbrev announce_each : List Invoice → Exec (Unit {0})
  announce_each [] = pure tt
  announce_each (i ∷ is) =
      gets (λ db. select (λ m. m.id == i.merchant_id) db.merchants) >>= λ merchants.
      announce_to i merchants >> announce_each is

  abbrev report_expired : List Invoice → Exec (List ℕ)
  report_expired [] = pure []
  report_expired (i ∷ is) = do
    audit_each (i ∷ is)
    announce_each (i ∷ is)
    pure (map (λ x. x.id) (i ∷ is))

  unfoldable pub expire_pending_invoices : Exec (List ℕ)
  unfolding is_overdue
  expire_pending_invoices = do
    expired ← gets (λ db. map expired_row (select (is_overdue now db.payments) db.invoices))
    modify (expire_rows now)
    report_expired expired
