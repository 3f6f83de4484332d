-- ===== src/Tests/Requests.antt =====
-- Amounts and requests: the theorems on backend/app/services/invoice_service.py and the amounts, applied.
use ghostbill.Prelude.{
  ◌≡◌, refl, ◌≢◌, ◌⊎◌, inr, none, some, arith, select, update_where, length, true,
}
use ghostbill.Prelude.Int.{pos}
use ghostbill.Model.{
  Invoice, InvoiceStatus, dec, ok, err, invoice_has_id, is_live_payment_of, invoice_state,
  wallet_unavailable, fits_columns,
}
use ghostbill.Money.{parse_amount_xmr, xmr_to_atomic, atomic_to_xmr}
use ghostbill.Money.Conversion.{xmr_to_atomic-cuts, xmr_to_atomic-atomic_to_xmr}
use ghostbill.Money.Validation.{IsPayable, parse_amount_xmr-IsPayable, parse_amount_xmr_complete}
use ghostbill.Invoice.{
  InvoiceRequest, create_invoice, cancel_invoice, draft_invoice, validate_expires_in,
  can_transition, fiat_amount_of, currency_of, valid_transitions,
}
use ghostbill.Invoice.Wallet.{rpc_error}
use ghostbill.Invoice.Transitions.{◌⟶*◌, here, then}
use ghostbill.Gateway.Cancel.{cancel_invoice_lem}
use ghostbill.Gateway.Create.{IsDraft, draft_invoice-IsDraft, create_invoice_unavailable}
use ghostbill.Tests.{shop, bill, tables, tables-IsConsistent}

abbrev order : InvoiceRequest
order = record {
  amount_xmr_raw = some (dec (pos 5) 1);
  description = none;
  expires_in = some (pos 900);
  metadata = none;
  fiat_rate = none;
  fiat_currency = "EUR";
}

abbrev ordered : Invoice
ordered = record {
  id = 5;
  merchant_id = 1;
  amount_atomic = 500000000000;
  amount_xmr = dec (pos 5) 1;
  fiat_currency = none;
  fiat_amount = none;
  fiat_rate = none;
  status = InvoiceStatus.pending;
  description = none;
  metadata_json = none;
  expires_at = 900000100;
  paid_at = none;
  created_at = 100;
}

half-parsed : parse_amount_xmr (some (dec (pos 5) 1)) ≡ ok (dec (pos 5) 1)
half-parsed = parse_amount_xmr_complete 5 1 (omega arith) (omega arith)

half-converted : xmr_to_atomic (dec (pos 5) 1) ≡ ok (pos 500000000000)
half-converted = xmr_to_atomic-cuts 5 1 (omega arith)

lifetime-valid : validate_expires_in (some (pos 900)) ≡ ok 900
unfolding validate_expires_in
lifetime-valid = refl

order-drafted : draft_invoice 100 shop order 5 ≡ ok ordered
unfolding draft_invoice fiat_amount_of currency_of
order-drafted = ground (arith, half-parsed, lifetime-valid, half-converted)

order-fits : fits_columns ordered ≡ true
unfolding fits_columns
order-fits = refl

xmr_to_atomic-atomic_to_xmr_example : xmr_to_atomic (atomic_to_xmr 123456789) ≡ ok (pos 123456789)
xmr_to_atomic-atomic_to_xmr_example = xmr_to_atomic-atomic_to_xmr 123456789 (omega arith)

parse_amount_xmr-IsPayable_example : (dec (pos 5) 1 ≡ dec (pos 5) 1) × IsPayable (dec (pos 5) 1)
parse_amount_xmr-IsPayable_example =
    parse_amount_xmr-IsPayable (dec (pos 5) 1) (dec (pos 5) 1) half-parsed

draft_invoice-IsDraft_example : IsDraft 100 shop order 5 ordered
draft_invoice-IsDraft_example = draft_invoice-IsDraft 100 shop order 5 ordered order-drafted

create_invoice_unavailable_example :
    let out = create_invoice (λ k. rpc_error) 100 shop order tables in
    (out.0 ≡ err wallet_unavailable)
    × (out.1.invoices ≡ tables.invoices)
    × (out.1.addresses ≡ tables.addresses)
    × (out.1.payments ≡ tables.payments)
create_invoice_unavailable_example =
    create_invoice_unavailable (λ k. rpc_error) 100 shop order tables ordered tables-IsConsistent
      order-drafted order-fits (inr refl)

-- The waiting payment keeps the invoice from being cancelled.
cancel_invoice_lem_example :
    let out = cancel_invoice 1 2 tables in
    let live = length (select (is_live_payment_of 2) tables.payments) in
    ((bill.status ≡ InvoiceStatus.pending)
      × (live ≡ 0)
      × (out.0 ≡ ok (record bill { status = InvoiceStatus.cancelled }))
      × (out.1.invoices
          ≡ update_where
              (invoice_has_id bill.id)
              (λ _. record bill { status = InvoiceStatus.cancelled })
              tables.invoices)
      × (out.1.payments ≡ tables.payments))
    ⊎ (((bill.status ≢ InvoiceStatus.pending) ⊎ (live ≢ 0)) × (out ≡ (err invoice_state, tables)))
cancel_invoice_lem_example = cancel_invoice_lem 1 2 tables bill refl

paid_late : InvoiceStatus.expired ⟶* InvoiceStatus.late_paid
unfolding can_transition valid_transitions
paid_late = then here refl
