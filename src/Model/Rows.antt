-- ===== src/Model/Rows.antt =====
-- The rows of the tables of backend/app/db/models.py. UUIDs, transaction hashes and addresses are
-- only compared, so they are numbers; instants are microseconds since the epoch. Of a JSON
-- dictionary the keys that the code reads are kept.
use ghostbill.Prelude.{ℕ, ◌*◌, Bool, Option, List, String}
use ghostbill.Model.Enums.{InvoiceStatus, PaymentStatus, SubscriptionStatus, WebhookStatus}
use ghostbill.Model.Rounding.{Decimal}

-- `timedelta(seconds=s)` and `timedelta(days=d)`
abbrev pub seconds : ℕ → ℕ
seconds s = s * 1000000

abbrev pub days : ℕ → ℕ
days d = d * 86400000000

-- An entry of `prepay_plans`, with a discount that is a whole number from 0 on.
pub record Plan : Type 0 where
  pub periods : ℕ
  pub discount_pct : ℕ

pub record Merchant : Type 0 where
  pub id : ℕ
  pub webhook_url : Option String
  pub webhook_secret : Option String
  pub prepay_plans : List Plan

-- The keys of an invoice's `metadata_json` that the services read or write.
pub record Metadata : Type 0 where
  pub prepay : Bool
  pub subscription_id : Option ℕ
  pub periods : Option ℕ
  pub discount_pct : Option ℕ

pub record Invoice : Type 0 where
  pub id : ℕ
  pub merchant_id : ℕ
  pub amount_atomic : ℕ
  pub amount_xmr : Decimal
  pub fiat_currency : Option String
  pub fiat_amount : Option Decimal
  pub fiat_rate : Option Decimal
  pub status : InvoiceStatus
  pub description : Option String
  pub metadata_json : Option Metadata
  pub expires_at : ℕ
  pub paid_at : Option ℕ
  pub created_at : ℕ

pub record InvoiceAddress : Type 0 where
  pub invoice_id : ℕ
  pub address : ℕ
  pub address_index : ℕ
  pub account_index : ℕ

pub record Payment : Type 0 where
  pub id : ℕ
  pub invoice_id : ℕ
  pub tx_hash : ℕ
  pub amount_atomic : ℕ
  pub amount_xmr : Decimal
  pub status : PaymentStatus
  pub confirmations : ℕ
  pub block_height : Option ℕ
  pub detected_at : ℕ
  pub confirmed_at : Option ℕ

-- A text as the list of its characters' codes.
abbrev pub Text : Type 0
Text = List ℕ

pub record Customer : Type 0 where
  pub id : ℕ
  pub merchant_id : ℕ
  pub external_id : Option ℕ
  pub email : Option Text
  pub created_at : ℕ

pub record Subscription : Type 0 where
  pub id : ℕ
  pub merchant_id : ℕ
  pub customer_id : ℕ
  pub amount_atomic : ℕ
  pub amount_xmr : Decimal
  pub interval_days : ℕ
  pub status : SubscriptionStatus
  pub grace_days_soft : ℕ
  pub grace_days_hard : ℕ
  pub next_due_at : ℕ
  pub cancelled_at : Option ℕ
  pub trial_days : Option ℕ
  pub trial_end_at : Option ℕ
  pub billing_anchor_at : ℕ
  pub pending_amount_atomic : Option ℕ
  pub pending_amount_xmr : Option Decimal
  pub pending_interval_days : Option ℕ
  pub pending_grace_soft : Option ℕ
  pub pending_grace_hard : Option ℕ
  pub prepaid_until : Option ℕ
  pub prepay_invoice_id : Option ℕ
  pub created_at : ℕ

pub record SubscriptionPayment : Type 0 where
  pub id : ℕ
  pub subscription_id : ℕ
  pub invoice_id : ℕ
  pub period_start : ℕ
  pub period_end : ℕ

pub record SubscriptionRenewalEvent : Type 0 where
  pub subscription_id : ℕ
  pub result : String
  pub invoice_id : Option ℕ

-- A webhook payload, by the rows that its JSON is built from.
pub data PayloadBody : Type 0 where
  payment_payload : Payment → Invoice → PayloadBody
  invoice_payload : Invoice → PayloadBody
  subscription_payload : Subscription → Option ℕ → Option String → PayloadBody

-- `_dlq_details`
pub record DlqDetails : Type 0 where
  pub attempt_count : Option ℕ
  pub max_attempts : Option ℕ
  pub failure_reason : Option String
  pub resolved_delivery_id : Option ℕ

pub record Payload : Type 0 where
  pub event : String
  pub timestamp : ℕ
  pub body : PayloadBody
  pub dlq_details : Option DlqDetails

pub record WebhookDelivery : Type 0 where
  pub id : ℕ
  pub merchant_id : ℕ
  pub invoice_id : Option ℕ
  pub event_type : String
  pub payload : Payload
  pub url : String
  pub status : WebhookStatus
  pub attempts : ℕ
  pub max_attempts : ℕ
  pub last_attempt_at : Option ℕ
  pub next_retry_at : Option ℕ
  pub response_code : Option ℕ
  pub response_body : Option String
  pub created_at : ℕ

pub record WebhookDeadLetter : Type 0 where
  pub id : ℕ
  pub delivery_id : ℕ
  pub merchant_id : ℕ
  pub event_type : String
  pub payload : Payload
  pub original_created_at : ℕ
  pub retry_count : ℕ
  pub retry_delivery_id : Option ℕ
  pub last_retry_at : Option ℕ
  pub last_error : String
  pub resolved : Bool
  pub resolved_at : Option ℕ

-- `exception` is the metadata that a payment of a cancelled invoice is logged with.
pub record AuditLog : Type 0 where
  pub merchant_id : Option ℕ
  pub action : String
  pub entity_id : Option ℕ
  pub exception : Bool

-- The tables, each in the order of insertion. `next_id` is what the next `uuid4()` returns.
pub record Db : Type 0 where
  pub next_id : ℕ
  pub merchants : List Merchant
  pub invoices : List Invoice
  pub addresses : List InvoiceAddress
  pub payments : List Payment
  pub customers : List Customer
  pub subscriptions : List Subscription
  pub subscription_payments : List SubscriptionPayment
  pub renewal_events : List SubscriptionRenewalEvent
  pub deliveries : List WebhookDelivery
  pub dead_letters : List WebhookDeadLetter
  pub audit_log : List AuditLog
