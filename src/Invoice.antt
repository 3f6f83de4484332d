-- ===== src/Invoice.antt =====
-- `InvoiceService` of backend/app/services/invoice_service.py. `now` is what the clock shows.
pub mod Wallet
pub mod Transitions
use ghostbill.Prelude.{
  ℕ, zero, ◌+◌, ◌-◌, ◌*◌, ◌/◌, ◌^◌, Bool, true, false, Option, none, some, List, [], ◌∷◌, ltb, leb,
  ◌==◌, if◌then◌else◌, any, select, take, drop, length, max, min, order_desc, String, ◌&&◌, not,
}
use ghostbill.Prelude.Int.{ℤ, pos, negsuc, ltb_ℤ, pos_part}
use ghostbill.Model.{
  fits_columns, database_error, InvoiceStatus, is_invoice_status, Decimal, dec, round_context,
  round_half_even, precision_bound, Result, ok, err, Exec, pure, raise, lift, gets, ◌>>=◌, ◌>>◌,
  raise_if, uuid4, add_audit, Db, Invoice, Merchant, Metadata, seconds, invoice_not_found,
  invoice_validation, invoice_state, wallet_unavailable, invalid_operation, find_invoice,
  put_invoice, add_invoice, delete_invoice, add_address, is_live_payment_of, scalar_one_or_none,
  when, modify,
}
use ghostbill.Money.{parse_amount_xmr, xmr_to_atomic, is_nonpositive}
use Wallet.{RpcReply, created, connection_error, rpc_error}

abbrev pub expires_in_min : ℕ
expires_in_min = 600

abbrev pub expires_in_max : ℕ
expires_in_max = 2592000

abbrev pub expires_in_default : ℕ
expires_in_default = 3600

unfoldable pub valid_transitions : InvoiceStatus → List InvoiceStatus
valid_transitions InvoiceStatus.pending =
    InvoiceStatus.paid ∷ InvoiceStatus.partially_paid ∷ InvoiceStatus.expired
    ∷ InvoiceStatus.cancelled ∷ []
valid_transitions InvoiceStatus.partially_paid =
    InvoiceStatus.paid ∷ InvoiceStatus.overpaid ∷ InvoiceStatus.pending ∷ []
valid_transitions InvoiceStatus.expired = InvoiceStatus.late_paid ∷ []
valid_transitions InvoiceStatus.paid =
    InvoiceStatus.overpaid ∷ InvoiceStatus.partially_paid ∷ InvoiceStatus.pending ∷ []
valid_transitions InvoiceStatus.overpaid =
    InvoiceStatus.paid ∷ InvoiceStatus.partially_paid ∷ InvoiceStatus.pending ∷ []
valid_transitions InvoiceStatus.late_paid = InvoiceStatus.expired ∷ []
valid_transitions InvoiceStatus.cancelled = []

-- `target in VALID_TRANSITIONS.get(current, [])`
unfoldable pub can_transition : InvoiceStatus → InvoiceStatus → Bool
unfolding valid_transitions
can_transition current target = any (is_invoice_status target) (valid_transitions current)

-- `_validate_expires_in`
unfoldable pub validate_expires_in : Option ℤ → Result ℕ
validate_expires_in none = ok expires_in_default
validate_expires_in (some expires_in) =
    if ltb_ℤ expires_in (pos expires_in_min)
    then err invoice_validation
    else if ltb_ℤ (pos expires_in_max) expires_in
    then err invoice_validation
    else ok (pos_part expires_in)

-- `new_status in (paid, overpaid, late_paid)`
abbrev pub is_paid_status : InvoiceStatus → Bool
is_paid_status InvoiceStatus.paid = true
is_paid_status InvoiceStatus.overpaid = true
is_paid_status InvoiceStatus.late_paid = true
is_paid_status _ = false

-- `invoice` with its status set, and `paid_at` with it for the paid states.
unfoldable pub with_status : ℕ → Invoice → InvoiceStatus → Invoice
with_status now invoice new_status = record invoice {
  status = new_status;
  paid_at = if is_paid_status new_status then some now else invoice.paid_at;
}

unfoldable pub update_status : ℕ → Invoice → InvoiceStatus → Exec Invoice
unfolding can_transition with_status
update_status now invoice new_status =
    if is_invoice_status invoice.status new_status then pure invoice else do
      raise_if (not (can_transition invoice.status new_status)) invoice_state
      put_invoice (with_status now invoice new_status)
      add_audit (some invoice.merchant_id) "invoice.status_changed" (some invoice.id)
      pure (with_status now invoice new_status)

abbrev pub or_not_found : Option Invoice → Exec Invoice
or_not_found none = raise invoice_not_found
or_not_found (some invoice) = pure invoice

-- `Invoice.id == invoice_id, Invoice.merchant_id == merchant_id`
abbrev pub is_invoice_of : ℕ → ℕ → Invoice → Bool
is_invoice_of merchant_id invoice_id i = i.id == invoice_id && i.merchant_id == merchant_id

unfoldable pub get_invoice : ℕ → ℕ → Exec Invoice
get_invoice merchant_id invoice_id = do
  found ← λ db. (scalar_one_or_none (select (is_invoice_of merchant_id invoice_id) db.invoices), db)
  or_not_found found

abbrev pub list_filter : ℕ → Option InvoiceStatus → Invoice → Bool
list_filter merchant_id none i = i.merchant_id == merchant_id
list_filter merchant_id (some s) i = i.merchant_id == merchant_id && is_invoice_status i.status s

-- `limit` and `offset` are clamped; a negative one is clamped like 0.
unfoldable pub list_invoices : ℕ → Option InvoiceStatus → ℕ → ℕ → Exec (List Invoice × ℕ)
list_invoices merchant_id status limit offset db =
    let rows = select (list_filter merchant_id status) db.invoices in
    (
      ok (
        take (max 1 (min limit 100)) (drop offset (order_desc (λ i. i.created_at) rows)),
        length rows,
      ),
      db,
    )

unfoldable pub cancel_invoice : ℕ → ℕ → Exec Invoice
unfolding get_invoice
cancel_invoice merchant_id invoice_id = do
  invoice ← get_invoice merchant_id invoice_id
  raise_if (not (is_invoice_status invoice.status InvoiceStatus.pending)) invoice_state
  payment_count ← gets (λ db. length (select (is_live_payment_of invoice_id) db.payments))
  raise_if (ltb 0 payment_count) invoice_state
  put_invoice (record invoice { status = InvoiceStatus.cancelled })
  add_audit (some merchant_id) "invoice.cancelled" (some invoice_id)
  pure (record invoice { status = InvoiceStatus.cancelled })

-- `(amount_xmr * fiat_rate).quantize(Decimal("0.01"))` for amounts above 0. `quantize` raises where
-- the result has more than 28 digits, and at what is not finite.
unfoldable pub fiat_value : Decimal → Decimal → Result Decimal
unfolding round_context round_half_even
fiat_value (dec (pos n) s) (dec (pos m) t) =
    let product = round_context (n * m) in
    let cents =
      if leb (s + t) 2
      then product * 10 ^ (2 - (s + t))
      else round_half_even (s + t - 2) product / 10 ^ (s + t - 2) in
    if ltb cents precision_bound then ok (dec (pos cents) 2) else err invalid_operation
fiat_value _ _ = err invalid_operation

-- `fiat_amount`: none without a rate above 0.
unfoldable pub fiat_amount_of : Decimal → Option Decimal → Result (Option Decimal)
unfolding is_nonpositive fiat_value
fiat_amount_of amount none = ok none
fiat_amount_of amount (some rate) = elim (is_nonpositive rate) [
  | err e ↦ err e
  | ok true ↦ ok none
  | ok false ↦ elim (fiat_value amount rate) [ ok v ↦ ok (some v) | err e ↦ err e ]
]

-- `fiat_currency if fiat_rate else None`: a rate of 0 is false.
unfoldable pub currency_of : String → Option Decimal → Option String
currency_of currency none = none
currency_of currency (some (dec (pos zero) s)) = none
currency_of currency (some rate) = some currency

-- The arguments of `create_invoice`; `amount_xmr_raw` is what `Decimal(str(raw))` reads, if it does.
pub record InvoiceRequest : Type 0 where
  pub amount_xmr_raw : Option Decimal
  pub description : Option String
  pub expires_in : Option ℤ
  pub metadata : Option Metadata
  pub fiat_rate : Option Decimal
  pub fiat_currency : String

-- The row of steps 1 to 5, or the error that the validation raises.
unfoldable pub draft_invoice : ℕ → Merchant → InvoiceRequest → ℕ → Result Invoice
unfolding validate_expires_in fiat_amount_of currency_of
draft_invoice now merchant request invoice_id = elim (parse_amount_xmr request.amount_xmr_raw) [
  | err e ↦ err e
  | ok amount_xmr ↦ elim (validate_expires_in request.expires_in) [
    | err e ↦ err e
    | ok expires_in_sec ↦ elim (xmr_to_atomic amount_xmr) [
      | err e ↦ err e
      | ok (negsuc n) ↦ err invoice_validation
      | ok (pos amount_atomic) ↦
          if leb amount_atomic 0
          then err invoice_validation
          else elim (fiat_amount_of amount_xmr request.fiat_rate) [
            | err e ↦ err e
            | ok fiat_amount ↦ ok (record {
              id = invoice_id;
              merchant_id = merchant.id;
              amount_atomic = amount_atomic;
              amount_xmr = amount_xmr;
              fiat_currency = currency_of request.fiat_currency request.fiat_rate;
              fiat_amount = fiat_amount;
              fiat_rate = request.fiat_rate;
              status = InvoiceStatus.pending;
              description = request.description;
              metadata_json = request.metadata;
              expires_at = now + seconds expires_in_sec;
              paid_at = none;
              created_at = now;
            })
          ]
    ]
  ]
]

-- Steps 6 to 8: the subaddress that wallet-rpc made for the row, or the row taken back.
unfoldable pub attach_address : Invoice → RpcReply → Exec Invoice
attach_address invoice connection_error = delete_invoice invoice.id >> raise wallet_unavailable
attach_address invoice rpc_error = delete_invoice invoice.id >> raise wallet_unavailable
attach_address invoice (created subaddress address_index) = do
  add_address (record {
    invoice_id = invoice.id;
    address = subaddress;
    address_index = address_index;
    account_index = 0;
  })
  add_audit (some invoice.merchant_id) "invoice.created" (some invoice.id)
  pure invoice

-- `wallet` is wallet-rpc's answer to `create_address` for the label of an invoice. The flush before it
-- raises where a column does not take its value.
unfoldable pub create_invoice : (ℕ → RpcReply) → ℕ → Merchant → InvoiceRequest → Exec Invoice
unfolding draft_invoice attach_address fits_columns
create_invoice wallet now merchant request = do
  fresh ← gets (λ db. db.next_id)
  invoice ← lift (draft_invoice now merchant request fresh)
  uuid4
  raise_if (not (fits_columns invoice)) database_error
  add_invoice invoice
  attach_address invoice (wallet invoice.id)
