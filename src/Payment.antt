-- ===== src/Payment.antt =====
-- `PaymentService` of backend/app/services/payment_service.py. `now` is what the clock shows.
pub mod Hook
pub mod Service
pub mod Events
pub mod Sums
pub mod Settlement
pub mod Agreement
pub mod Writes
pub mod Confirmations
pub mod Lookup
pub mod Unsettled
pub mod Transfers
pub mod Reorgs
pub mod Recording
use ghostbill.Prelude.{
  ℕ, zero, suc, Bool, true, false, not, Option, none, some, List, [], ◌∷◌, ◌++◌, ltb, leb, ◌==◌,
  ◌&&◌, ◌||◌, if◌then◌else◌, select, sum_by, is_some,
}
use ghostbill.Model.{
  InvoiceStatus, PaymentStatus, is_invoice_status, is_payment_status, Result, ok, err, Exec, pure,
  raise, gets, lift, ◌>>=◌, ◌>>◌, when, try_except, uuid4, add_audit, modify, Db, Invoice,
  InvoiceAddress, Payment, AuditLog, find_invoice, put_payment, scalar_one_or_none, invalid_request,
}
use ghostbill.Money.{dust_threshold_atomic, atomic_to_xmr}
use ghostbill.Invoice.{is_paid_status, can_transition, update_status}
use Hook.{PaymentHook}

abbrev pub confirmation_threshold : ℕ
confirmation_threshold = 10

abbrev pub at_subaddress : ℕ → ℕ → InvoiceAddress → Bool
at_subaddress account_index address_index a =
    a.account_index == account_index && a.address_index == address_index

abbrev pub invoice_of_address : Option InvoiceAddress → Exec (Option Invoice)
invoice_of_address none = pure none
invoice_of_address (some a) = find_invoice a.invoice_id

unfoldable pub find_invoice_by_subaddress_index : ℕ → ℕ → Exec (Option Invoice)
find_invoice_by_subaddress_index account_index address_index = do
  found ← λ db.
      (scalar_one_or_none (select (at_subaddress account_index address_index) db.addresses), db)
  invoice_of_address found

abbrev pub has_tx_hash : ℕ → Payment → Bool
has_tx_hash txid p = p.tx_hash == txid

unfoldable pub find_payment_by_tx_hash : ℕ → Exec (Option Payment)
find_payment_by_tx_hash txid db = (scalar_one_or_none (select (has_tx_hash txid) db.payments), db)

-- A transfer of wallet-rpc's `get_transfers`. A missing count of confirmations or height reads as 0.
pub record Transfer : Type 0 where
  pub txid : ℕ
  pub amount : ℕ
  pub major : ℕ
  pub minor : ℕ
  pub confirmations : ℕ
  pub height : ℕ

-- `int(tx["height"]) if tx.get("height", 0) > 0 else None`
abbrev pub height_of : ℕ → Option ℕ
height_of height = if ltb 0 height then some height else none

abbrev pub initial_status : ℕ → PaymentStatus
initial_status confirmations =
    if leb confirmation_threshold confirmations
    then PaymentStatus.confirmed
    else PaymentStatus.detected

-- The row that `_create_payment` adds.
unfoldable pub new_payment : ℕ → ℕ → Invoice → Transfer → Payment
new_payment now payment_id invoice tx = record {
  id = payment_id;
  invoice_id = invoice.id;
  tx_hash = tx.txid;
  amount_atomic = tx.amount;
  amount_xmr = atomic_to_xmr tx.amount;
  status = initial_status tx.confirmations;
  confirmations = tx.confirmations;
  block_height = height_of tx.height;
  detected_at = now;
  confirmed_at = if leb confirmation_threshold tx.confirmations then some now else none;
}

-- The audit entry of a new payment, which marks a payment of a cancelled invoice. The payment has no id
-- before the flush, so the entry names none.
unfoldable pub detection_audit : Invoice → Payment → AuditLog
detection_audit invoice payment = record {
  merchant_id = some invoice.merchant_id;
  action = "payment.detected";
  entity_id = none;
  exception = is_invoice_status invoice.status InvoiceStatus.cancelled;
}

unfoldable pub create_payment : ℕ → Invoice → Transfer → Exec Payment
unfolding new_payment detection_audit
create_payment now invoice tx db =
    let payment = new_payment now db.next_id invoice tx in
    (
      ok payment,
      record db {
        next_id = suc db.next_id;
        payments = db.payments ++ payment ∷ [];
        audit_log = db.audit_log ++ detection_audit invoice payment ∷ [];
      },
    )

-- Whether `_update_confirmations` sees the threshold passed.
abbrev pub crosses_threshold : Payment → ℕ → Bool
crosses_threshold payment confirmations =
    is_payment_status payment.status PaymentStatus.detected
    && leb confirmation_threshold confirmations

-- `payment` after `_update_confirmations`: the count only grows, a height is set once, and a
-- detected payment is confirmed at the threshold.
unfoldable pub confirmed_payment : ℕ → Payment → ℕ → Option ℕ → Payment
confirmed_payment now payment confirmations block_height = record payment {
  confirmations =
      if ltb payment.confirmations confirmations then confirmations else payment.confirmations;
  block_height = if is_some payment.block_height then payment.block_height else block_height;
  status =
      if crosses_threshold payment confirmations then PaymentStatus.confirmed else payment.status;
  confirmed_at = if crosses_threshold payment confirmations then some now else payment.confirmed_at;
}

-- `changed`
unfoldable pub confirmation_changes : Payment → ℕ → Option ℕ → Bool
confirmation_changes payment confirmations block_height =
    if ltb payment.confirmations confirmations
    then true
    else if is_some block_height && not (is_some payment.block_height)
    then true
    else crosses_threshold payment confirmations

-- `invoice.merchant_id if invoice is not None else None`
abbrev pub merchant_of : Option Invoice → Option ℕ
merchant_of none = none
merchant_of (some invoice) = some invoice.merchant_id

-- The audit entry for a payment names the merchant of its invoice, if that is there.
unfoldable pub audit_payment : Payment → AuditLog → Exec (Unit {0})
audit_payment payment entry db =
    elim (scalar_one_or_none (select (λ i. i.id == payment.invoice_id) db.invoices)) [
      | err e ↦ (err e, db)
      | ok invoice ↦ (
        ok tt,
        record db {
          audit_log = db.audit_log ++ record entry { merchant_id = merchant_of invoice } ∷ [];
        },
      )
    ]

-- `_update_confirmations`: the payment as it is afterwards, and whether it is newly confirmed.
unfoldable pub update_confirmations : ℕ → Payment → ℕ → Option ℕ → Exec (Payment × Bool)
unfolding confirmed_payment confirmation_changes audit_payment
update_confirmations now payment confirmations block_height =
    if is_payment_status payment.status PaymentStatus.orphaned then pure (payment, false) else do
      let after = confirmed_payment now payment confirmations block_height
      put_payment after
      when (crosses_threshold payment confirmations) (
          audit_payment after (record {
            merchant_id = none;
            action = "payment.confirmed";
            entity_id = some payment.id;
            exception = false;
          }))
      pure (
        after,
        is_payment_status after.status PaymentStatus.confirmed
            && confirmation_changes payment confirmations block_height,
      )

abbrev pub is_confirmed_of : ℕ → Payment → Bool
is_confirmed_of invoice_id p =
    p.invoice_id == invoice_id && is_payment_status p.status PaymentStatus.confirmed

-- The sum that the query of `sum_invoice_payments` returns.
abbrev pub confirmed_sum : ℕ → List Payment → ℕ
confirmed_sum invoice_id payments =
    sum_by (λ p. p.amount_atomic) (select (is_confirmed_of invoice_id) payments)

unfoldable pub sum_invoice_payments : ℕ → Exec ℕ
sum_invoice_payments invoice_id = gets (λ db. confirmed_sum invoice_id db.payments)

-- The `if`s of `_recalculate_invoice_status` that choose the new status.
unfoldable pub target_status : InvoiceStatus → ℕ → ℕ → InvoiceStatus
target_status InvoiceStatus.expired cumulative required =
    if leb required cumulative then InvoiceStatus.late_paid else InvoiceStatus.expired
target_status InvoiceStatus.late_paid cumulative required =
    if leb required cumulative then InvoiceStatus.late_paid else InvoiceStatus.expired
target_status _ cumulative required =
    if ltb required cumulative
    then InvoiceStatus.overpaid
    else if leb required cumulative
    then InvoiceStatus.paid
    else if ltb 0 cumulative
    then InvoiceStatus.partially_paid
    else InvoiceStatus.pending

-- The transition to the new status: in one step, or from pending through paid to overpaid.
unfoldable pub apply_transition : ℕ → Invoice → InvoiceStatus → Exec Invoice
apply_transition now invoice target =
    if is_invoice_status invoice.status target
    then pure invoice
    else if can_transition invoice.status target
    then update_status now invoice target
    else if is_invoice_status invoice.status InvoiceStatus.pending
        && is_invoice_status target InvoiceStatus.overpaid
    then (do
      paid ← update_status now invoice InvoiceStatus.paid
      update_status now paid InvoiceStatus.overpaid)
    else pure invoice

-- `db.refresh(invoice)`
abbrev pub refreshed : Option Invoice → Exec Invoice
refreshed none = raise invalid_request
refreshed (some invoice) = pure invoice

-- Whether the hook for a paid invoice runs, from the statuses before and after.
abbrev pub newly_paid : InvoiceStatus → InvoiceStatus → Bool
newly_paid old current =
    is_paid_status current && not (is_paid_status old) && not (is_invoice_status old current)

-- The test after an update of a known payment.
abbrev pub needs_recalculation : Invoice → Payment × Bool → Bool
needs_recalculation invoice (payment, transitioned) =
    not (is_invoice_status invoice.status InvoiceStatus.cancelled)
    && (transitioned || is_payment_status payment.status PaymentStatus.confirmed)
