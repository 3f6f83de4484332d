-- ===== src/Lib.antt =====
-- GhostBill: the settlement of Monero invoices.
--
-- GhostBill is a payment gateway. A merchant asks for an invoice, which gets its own subaddress; a
-- poller reads the transfers of the wallet and hands each to the payment service, which records it,
-- counts its confirmations and derives the invoice's status from the confirmed payments; a timer
-- expires invoices that nobody pays; the poller also reports transactions that a reorganisation of the
-- chain has removed; and changes are announced to the merchant by webhooks, which a worker delivers,
-- tries again on a schedule and at last puts into a dead letter queue. Subscriptions bill a customer in
-- periods: a sweep makes the invoice of each period that is due, a payment hook keeps a subscription
-- alive, and grace periods end it.
--
-- The parts, and the code that each is about (paths from the repository's root):
--   Model       backend/app/db/models.py: the rows, the enums and the database; Session: a service
--               method as a state function with exceptions; Rounding: the decimal context.
--   Money       backend/app/services/monero_rpc.py (atomic_to_xmr, xmr_to_atomic) and _parse_amount_xmr
--               of backend/app/services/invoice_service.py.
--   Invoice     InvoiceService of backend/app/services/invoice_service.py: VALID_TRANSITIONS,
--               create_invoice, get_invoice, list_invoices, cancel_invoice, update_status.
--   Payment     PaymentService of backend/app/services/payment_service.py: the lookups,
--               _create_payment, _update_confirmations and the choice of a status; in Payment/Service
--               _recalculate_invoice_status, process_transfer and handle_reorg; in Payment/Events
--               determine_webhook_events. Payment/Hook is the interface to the subscription service.
--   Expiration  backend/app/services/expiration_service.py.
--   Tor         validate_webhook_url of backend/app/core/tor_proxy.py.
--   Webhook     backend/app/services/webhook_payloads.py and webhook_service.py; Webhook/Worker
--               one cycle of backend/app/tasks/webhook_worker.py.
--   Subscription
--               backend/app/services/subscription_exceptions.py (the state machine),
--               subscription_update.py, subscription_service.py, and the schedule and the pending
--               changes of subscription_renewal.py.
--   Renewal     the invoice of a period: subscription_renewal.py.
--   Prepayment  several periods at once: subscription_prepay.py.
--   Grace       subscription_grace.py; Grace/Hook fills the interface Payment/Hook with it.
--   Renewer     a sweep of backend/app/tasks/subscription_renewer.py.
--   Detection   a cycle of backend/app/tasks/detection_engine.py, with detection_confirmations.py and the
--               constants of detection_helpers.py.
--   Pagination  backend/app/utils/pagination.py.
--   RateLimit   backend/app/core/rate_limit.py.
--   License     backend/app/services/license_service.py.
--   Customer    backend/app/services/customer_service.py.
--   Gateway     the services together, as steps on one database.
--   Tests       every theorem with conditions, applied to small tables.
--
-- How the code is read. A method is a function from the database to a result or an exception and the
-- database with what has been written by then; the caller rolls back after an exception. A row that the
-- ORM tracks is a value that is written back by its id. UUIDs, transaction hashes and addresses are
-- numbers; next_id is the UUID that comes next, so fresh ids are new. Instants are microseconds, and the
-- clock is an argument. The keys of JSON dictionaries that the code reads are fields. Numbers are
-- natural numbers. The bounds and constraints of the columns are tested where an invoice or a
-- subscription is stored: an amount of an invoice has to be below 10^6 XMR, by Numeric(18, 12). Python's
-- Decimal is a whole number with a scale, an infinity or a NaN, and each result is rounded to 28 digits.
-- The discount of a prepay plan is read as a whole number from 0 on.
--
-- Parameters: what wallet-rpc answers, what an HTTP POST ends with, urlparse and ip_address, SHA-256,
-- the random part of a licence key and the start of the month. Redis is a table of its keys. The payment
-- service is stated over any hook for a paid invoice that leaves invoices, payments and addresses alone
-- and only adds ids; the subscription service fills it.
--
-- Fuel: the count of digits in Rounding runs on the number itself, which has more units than digits. The
-- loop of a sweep runs on one unit for each batch and returns none without it, since it need not end. All
-- other functions are structural.
--
-- Not modelled: the HTTP API, authentication, encryption, logging and the loops around the tasks; the
-- details of audit entries except the mark of a payment to a cancelled invoice; descriptive columns; the
-- HMAC signature of a webhook and the cut of a response's body to 2048 characters; row locks, so that a
-- method is one step. Nor are analytics, the price feed, the middleware and the engine's health metrics.
-- Metadata is read with the types that the services write. A float division of seconds in the billing
-- schedule is exact here. Not tested are the lengths of texts and the bounds of the columns of
-- payments and of pending changes; discounts of prepay plans that are negative, fractional or no number
-- are left out.
pub mod Prelude
pub mod Model
pub mod Money
pub mod Invoice
pub mod Payment
pub mod Expiration
pub mod Subscription
pub mod Renewal
pub mod Prepayment
pub mod Grace
pub mod Renewer
pub mod Gateway
pub mod Tor
pub mod Webhook
pub mod RateLimit
pub mod License
pub mod Pagination
pub mod Customer
pub mod Detection
pub mod Tests
