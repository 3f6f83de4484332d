-- ===== src/Tests/Ledger.antt =====
-- Invoices and payments: the theorems on backend/app/services/payment_service.py and
-- expiration_service.py, applied.
use ghostbill.Prelude.{map, update_where, ◌⊎◌, ◌∷◌, [], ◌≢◌, ◌≡◌, refl, some, true, arith, ◌≤◌}
use ghostbill.Prelude.Keys.{head}
use ghostbill.Model.{Db, Invoice, Payment, InvoiceStatus, PaymentStatus, payment_has_id}
use ghostbill.Payment.{Transfer, target_status}
use ghostbill.Payment.Service.{process_transfer, handle_reorg, recalculate_invoice_status}
use ghostbill.Payment.Agreement.{IsConsistent}
use ghostbill.Payment.Settlement.{Applied, Settles, recalculate-Applied, target_status_lem}
use ghostbill.Payment.Transfers.{PaysOneInvoice, process_transfer-IsConsistent}
use ghostbill.Payment.Reorgs.{handle_reorg-IsConsistent}
use ghostbill.Payment.Events.{determine_webhook_events, determine_webhook_events_lem, announces}
use ghostbill.Expiration.{expire_pending_invoices}
use ghostbill.Expiration.Deadline.{expire_pending_invoices_lem, Expires}
use ghostbill.Invoice.Transitions.{is_lapsed}
use ghostbill.Prelude.Keys.{In}
use ghostbill.Detection.{scan_one}
use ghostbill.Gateway.Reach.{Step, Reaches, start, next, Reaches-IsConsistent}
use ghostbill.Money.{dust_threshold_atomic}
use ghostbill.Payment.Recording.{
  Leaves, IsRecord, IsUpdate, process_transfer_records, process_transfer_repeats,
}
use ghostbill.Tests.{
  bill_address, silent_hook, clear_net, bill, first_part, tables, tables-IsConsistent, incoming,
}

incoming-PaysOneInvoice : PaysOneInvoice incoming tables
incoming-PaysOneInvoice = (λ h. cc, tt)

-- The second transaction pays the invoice; then the first is lost, and the expirer runs.
abbrev after_transfer : Db
after_transfer = (scan_one clear_net 50 (some incoming) tables).1

abbrev after_expiry : Db
after_expiry = (expire_pending_invoices clear_net 5000000000 after_transfer).1

history : Reaches clear_net tables after_expiry
history =
    next (next start (Step.transfer 50 incoming incoming-PaysOneInvoice)) (Step.expire 5000000000)

Reaches-IsConsistent_example : IsConsistent after_expiry
Reaches-IsConsistent_example = Reaches-IsConsistent clear_net history tables-IsConsistent

process_transfer-IsConsistent_example :
    IsConsistent (process_transfer silent_hook 50 incoming tables).1
process_transfer-IsConsistent_example =
    process_transfer-IsConsistent silent_hook 50 incoming tables tables-IsConsistent
      incoming-PaysOneInvoice

handle_reorg-IsConsistent_example : IsConsistent (handle_reorg silent_hook 60 first_part tables).1
handle_reorg-IsConsistent_example =
    handle_reorg-IsConsistent silent_hook 60 first_part tables (head refl) tables-IsConsistent

recalculate-Applied_example :
    Applied bill
      (target_status InvoiceStatus.pending 0 500000000)
      tables
      (recalculate_invoice_status silent_hook 60 bill tables)
recalculate-Applied_example = recalculate-Applied silent_hook 60 bill bill tables refl (λ e. cc)

target_status_lem_example :
    let t = target_status InvoiceStatus.expired 7 5 in
    Settles t 7 5 × (t ≢ InvoiceStatus.cancelled) × (is_lapsed t ≡ true)
target_status_lem_example = target_status_lem InvoiceStatus.expired 7 5 (omega arith)

expire_pending_invoices_lem_example :
    let out = (expire_pending_invoices clear_net 5000000000 tables).1 in
    (map (λ i. i.id) out.invoices ≡ 2 ∷ [])
    × (out.payments ≡ tables.payments)
    × ((i : Invoice) → In i tables.invoices → Expires 5000000000 tables.payments i out.invoices)
expire_pending_invoices_lem_example = expire_pending_invoices_lem clear_net 5000000000 tables

determine_webhook_events_lem_example :
    announces "invoice.reverted"
      (determine_webhook_events first_part bill InvoiceStatus.paid (some PaymentStatus.confirmed))
    ≡ true
determine_webhook_events_lem_example =
    (determine_webhook_events_lem first_part bill InvoiceStatus.paid
        (some PaymentStatus.confirmed)).0.1
      (refl, refl)

above_dust : dust_threshold_atomic ≤ incoming.amount
above_dust = omega arith

process_transfer_records_example :
    (p : Payment) × IsRecord 50 bill incoming p
    × (p.id ≡ 5)
    × Leaves (some p) (first_part ∷ p ∷ []) (process_transfer silent_hook 50 incoming tables)
process_transfer_records_example =
    process_transfer_records silent_hook 50 incoming tables bill_address bill refl refl above_dust
      refl

-- The first transaction, seen again with enough confirmations.
abbrev again : Transfer
again = record incoming { txid = 900 }

process_transfer_repeats_example :
    ((first_part.status ≡ PaymentStatus.orphaned)
      × Leaves (some first_part) tables.payments (process_transfer silent_hook 50 again tables))
    ⊎ ((first_part.status ≢ PaymentStatus.orphaned)
        × (after : Payment) × IsUpdate 50 again first_part after
        × Leaves
            (some after)
            (update_where (payment_has_id 3) (λ _. after) tables.payments)
            (process_transfer silent_hook 50 again tables))
process_transfer_repeats_example =
    process_transfer_repeats silent_hook 50 again tables bill_address bill refl refl first_part
      above_dust refl refl
