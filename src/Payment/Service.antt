-- ===== src/Payment/Service.antt =====
-- `PaymentService`: the methods that settle invoices, from a recalculation up to `process_transfer` and
-- `handle_reorg`.
use ghostbill.Prelude.{ℕ, false, not, Option, none, some, ltb, if◌then◌else◌}
use ghostbill.Model.{
  InvoiceStatus, PaymentStatus, is_invoice_status, is_payment_status, Exec, pure, ◌>>=◌, ◌>>◌, when,
  try_except, add_audit, Invoice, Payment, find_invoice, put_payment,
}
use ghostbill.Money.{dust_threshold_atomic}
use ghostbill.Payment.Hook.{PaymentHook}
use ghostbill.Payment.{
  Transfer, apply_transition, audit_payment, create_payment, find_invoice_by_subaddress_index,
  find_payment_by_tx_hash, height_of, needs_recalculation, newly_paid, refreshed,
  sum_invoice_payments, target_status, update_confirmations,
}

module _ (hook : PaymentHook) where
  -- The hook for a paid invoice; if it raises, an audit entry is written and the exception goes no further.
  unfoldable pub notify_paid : Invoice → Exec (Unit {0})
  notify_paid invoice =
      try_except (hook.on_paid invoice.id)
        (add_audit (some invoice.merchant_id) "subscription_hook_failed" (some invoice.id))

  -- The end of `_recalculate_invoice_status`: the hook for an invoice that is newly paid.
  unfoldable pub report : InvoiceStatus → Invoice → Exec Invoice
  unfolding notify_paid
  report old_status invoice = do
    when (newly_paid old_status invoice.status) (notify_paid invoice)
    pure invoice

  -- What `_recalculate_invoice_status` does with the row that it has refreshed.
  unfoldable pub settle : ℕ → Invoice → Exec Invoice
  unfolding sum_invoice_payments report
  settle now invoice =
      if is_invoice_status invoice.status InvoiceStatus.cancelled then pure invoice else do
        cumulative ← sum_invoice_payments invoice.id
        settled ←
            apply_transition now invoice
              (target_status invoice.status cumulative invoice.amount_atomic)
        report invoice.status settled

  unfoldable pub recalculate_invoice_status : ℕ → Invoice → Exec Invoice
  unfolding settle
  recalculate_invoice_status now stale = do
    invoice ← refreshed (← find_invoice stale.id)
    settle now invoice

  -- Steps 3 to 5 for a transfer to a known invoice.
  unfoldable pub record_transfer : ℕ → Transfer → Invoice → Option Payment → Exec (Option Payment)
  record_transfer now tx invoice (some existing) = do
    updated ← update_confirmations now existing tx.confirmations (height_of tx.height)
    when (needs_recalculation invoice updated)
        (recalculate_invoice_status now invoice >>= λ _. pure tt)
    pure (some updated.0)
  record_transfer now tx invoice none = do
    payment ← create_payment now invoice tx
    when (not (is_invoice_status invoice.status InvoiceStatus.cancelled))
        (recalculate_invoice_status now invoice >>= λ _. pure tt)
    pure (some payment)

  abbrev pub transfer_to : ℕ → Transfer → Option Invoice → Exec (Option Payment)
  transfer_to now tx none = pure none
  transfer_to now tx (some invoice) = do
    existing ← find_payment_by_tx_hash tx.txid
    record_transfer now tx invoice existing

  -- Steps 2 to 5 of `process_transfer`.
  unfoldable pub match_transfer : ℕ → Transfer → Exec (Option Payment)
  match_transfer now tx = do
    invoice ← find_invoice_by_subaddress_index tx.major tx.minor
    transfer_to now tx invoice

  unfoldable pub process_transfer : ℕ → Transfer → Exec (Option Payment)
  unfolding match_transfer
  process_transfer now tx =
      if ltb tx.amount dust_threshold_atomic then pure none else match_transfer now tx

  abbrev pub recalculate_found : ℕ → Option Invoice → Exec (Unit {0})
  recalculate_found now none = pure tt
  recalculate_found now (some invoice) = recalculate_invoice_status now invoice >>= λ _. pure tt

  unfoldable pub handle_reorg : ℕ → Payment → Exec (Unit {0})
  unfolding audit_payment
  handle_reorg now payment =
      if is_payment_status payment.status PaymentStatus.orphaned then pure tt else do
        put_payment (record payment { status = PaymentStatus.orphaned })
        audit_payment payment (record {
          merchant_id = none;
          action = "payment.orphaned";
          entity_id = some payment.id;
          exception = false;
        })
        recalculate_found now (← find_invoice payment.invoice_id)
