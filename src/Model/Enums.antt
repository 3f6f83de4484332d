-- ===== src/Model/Enums.antt =====
-- The status enums of backend/app/db/models.py and the exception classes of the services.
use ghostbill.Prelude.{Bool, true, false}

pub data InvoiceStatus : Type 0 where
  pending paid expired partially_paid overpaid late_paid cancelled : InvoiceStatus

pub data PaymentStatus : Type 0 where
  detected confirmed orphaned : PaymentStatus

pub data SubscriptionStatus : Type 0 where
  active paused past_due cancelled expired trialing : SubscriptionStatus

pub data WebhookStatus : Type 0 where
  pending delivered failed dead_lettered : WebhookStatus

-- `result_type` of `SkipRenewalError`.
pub data SkipReason : Type 0 where
  skipped_idempotent skipped_unpaid : SkipReason

-- The exceptions that the services raise. `invalid_operation` is decimal's, which `Decimal`
-- comparisons with a NaN raise, `overflow_error` that of `int` at an infinity; `integrity_error`, `multiple_results` and `invalid_request`
-- are SQLAlchemy's, and `database_error` is any other that a flush or a commit raises; `http_exception` and
-- `rpc_exception` are those of the clients that their callers do not name.
pub data Error : Type 0 where
  invoice_not_found invoice_validation invoice_state wallet_unavailable : Error
  subscription_not_found subscription_validation subscription_state : Error
  customer_not_found customer_validation customer_conflict : Error
  skip_renewal : SkipReason → Error
  retry_not_found retry_conflict retry_invalid_state : Error
  database_error http_exception rpc_exception : Error
  value_error invalid_operation overflow_error integrity_error multiple_results invalid_request
        http_bad_request :
      Error

-- `==` of the enums.
abbrev pub is_invoice_status : InvoiceStatus → InvoiceStatus → Bool
is_invoice_status InvoiceStatus.pending InvoiceStatus.pending = true
is_invoice_status InvoiceStatus.paid InvoiceStatus.paid = true
is_invoice_status InvoiceStatus.expired InvoiceStatus.expired = true
is_invoice_status InvoiceStatus.partially_paid InvoiceStatus.partially_paid = true
is_invoice_status InvoiceStatus.overpaid InvoiceStatus.overpaid = true
is_invoice_status InvoiceStatus.late_paid InvoiceStatus.late_paid = true
is_invoice_status InvoiceStatus.cancelled InvoiceStatus.cancelled = true
is_invoice_status _ _ = false

abbrev pub is_payment_status : PaymentStatus → PaymentStatus → Bool
is_payment_status PaymentStatus.detected PaymentStatus.detected = true
is_payment_status PaymentStatus.confirmed PaymentStatus.confirmed = true
is_payment_status PaymentStatus.orphaned PaymentStatus.orphaned = true
is_payment_status _ _ = false

abbrev pub is_subscription_status : SubscriptionStatus → SubscriptionStatus → Bool
is_subscription_status SubscriptionStatus.active SubscriptionStatus.active = true
is_subscription_status SubscriptionStatus.paused SubscriptionStatus.paused = true
is_subscription_status SubscriptionStatus.past_due SubscriptionStatus.past_due = true
is_subscription_status SubscriptionStatus.cancelled SubscriptionStatus.cancelled = true
is_subscription_status SubscriptionStatus.expired SubscriptionStatus.expired = true
is_subscription_status SubscriptionStatus.trialing SubscriptionStatus.trialing = true
is_subscription_status _ _ = false

abbrev pub is_webhook_status : WebhookStatus → WebhookStatus → Bool
is_webhook_status WebhookStatus.pending WebhookStatus.pending = true
is_webhook_status WebhookStatus.delivered WebhookStatus.delivered = true
is_webhook_status WebhookStatus.failed WebhookStatus.failed = true
is_webhook_status WebhookStatus.dead_lettered WebhookStatus.dead_lettered = true
is_webhook_status _ _ = false
