-- ===== src/Payment/Events.antt =====
-- `PaymentService.determine_webhook_events` and what it announces.
use text.Mathlib.Text.{◌==◌ as str_eq}
use ghostbill.Prelude.{
  ◌≡◌, ◌≢◌, ◌↔◌, Bool, true, false, Option, none, some, List, [], ◌∷◌, ◌++◌, All, String, arith,
  if◌then◌else◌, ◌&&◌, any, not,
}
use ghostbill.Model.{
  InvoiceStatus, PaymentStatus, is_invoice_status, is_payment_status, Invoice, Payment,
}
use ghostbill.Invoice.{is_paid_status}
use ghostbill.Webhook.{is_event}

-- `REVERTED_TARGET_STATUSES`; `REVERTIBLE_PAID_STATUSES` are the paid statuses.
abbrev pub is_reverted_target : InvoiceStatus → Bool
is_reverted_target InvoiceStatus.pending = true
is_reverted_target InvoiceStatus.partially_paid = true
is_reverted_target InvoiceStatus.expired = true
is_reverted_target _ = false

abbrev payment_events : PaymentStatus → Option PaymentStatus → List String
payment_events current none = "payment.detected" ∷ []
payment_events current (some old) =
    if is_payment_status old PaymentStatus.detected
      && is_payment_status current PaymentStatus.confirmed
    then "payment.confirmed" ∷ []
    else if is_payment_status current PaymentStatus.orphaned
    then "payment.orphaned" ∷ []
    else []

abbrev exception_events : InvoiceStatus → Option PaymentStatus → List String
exception_events old_invoice none =
    if is_invoice_status old_invoice InvoiceStatus.cancelled
    then "invoice.exception_payment" ∷ []
    else []
exception_events old_invoice (some old) = []

-- `status_event_map`
abbrev status_event : InvoiceStatus → List String
status_event InvoiceStatus.paid = "invoice.paid" ∷ []
status_event InvoiceStatus.partially_paid = "invoice.partially_paid" ∷ []
status_event InvoiceStatus.overpaid = "invoice.overpaid" ∷ []
status_event InvoiceStatus.late_paid = "invoice.late_paid" ∷ []
status_event InvoiceStatus.expired = "invoice.expired" ∷ []
status_event _ = []

abbrev invoice_events : InvoiceStatus → InvoiceStatus → List String
invoice_events current old =
    if is_paid_status old && is_reverted_target current
    then "invoice.reverted" ∷ []
    else if not (is_invoice_status current old)
    then status_event current
    else []

unfoldable pub determine_webhook_events :
    Payment → Invoice → InvoiceStatus → Option PaymentStatus → List String
determine_webhook_events payment invoice old_invoice_status old_payment_status =
    payment_events payment.status old_payment_status
    ++ exception_events old_invoice_status old_payment_status
    ++ invoice_events invoice.status old_invoice_status

-- Every announced event is one that `queue_webhook` accepts.
determine_webhook_events-is_event :
    (p : Payment) (i : Invoice) (old : InvoiceStatus) (before : Option PaymentStatus)
    → All (λ e. is_event e ≡ true) (determine_webhook_events p i old before)
unfolding determine_webhook_events
determine_webhook_events-is_event p i old before = ground arith

abbrev pub announces : String → List String → Bool
announces event events = any (str_eq event) events

-- A reversal is announced exactly when an invoice in a paid status has become pending, partially paid
-- or expired, and an expiry is not announced with it; a payment is announced as detected exactly when
-- it is new, and as an exception exactly when it is new and the invoice was cancelled; and an invoice
-- is announced as paid exactly when it is paid and was not before.
pub determine_webhook_events_lem :
    (p : Payment) (i : Invoice) (old : InvoiceStatus) (before : Option PaymentStatus)
    → let events = determine_webhook_events p i old before in
      ((announces "invoice.reverted" events ≡ true)
        ↔ ((is_paid_status old ≡ true) × (is_reverted_target i.status ≡ true)))
      × ((announces "invoice.reverted" events ≡ true) → announces "invoice.expired" events ≡ false)
      × ((announces "payment.detected" events ≡ true) ↔ (before ≡ none))
      × ((announces "invoice.exception_payment" events ≡ true)
          ↔ ((before ≡ none) × (old ≡ InvoiceStatus.cancelled)))
      × ((announces "invoice.paid" events ≡ true)
          ↔ ((i.status ≡ InvoiceStatus.paid) × (old ≢ InvoiceStatus.paid)))
unfolding determine_webhook_events
determine_webhook_events_lem p i old before = ground arith
