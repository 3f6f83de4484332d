-- ===== src/Tests.antt =====
-- The theorems applied to small tables: a shop with one open invoice and one payment that waits for
-- confirmations.
mod Ledger
mod Delivery
mod Requests
mod Subscriptions
mod Billing
mod Services
mod Customers
use ghostbill.Prelude.{ℕ, ◌≡◌, refl, none, some, List, [], ◌∷◌, Bool, true, false, arith}
use ghostbill.Prelude.Int.{pos}
use ghostbill.Model.{
  Db, Merchant, Invoice, InvoiceAddress, Payment, WebhookDelivery, Payload, InvoiceStatus,
  PaymentStatus, WebhookStatus, dec, seconds, ok, invoice_payload,
}
use ghostbill.Tor.{Network}
use ghostbill.Payment.{Transfer}
use ghostbill.Payment.Hook.{PaymentHook}
use ghostbill.Payment.Agreement.{IsConsistent}
use ghostbill.Webhook.{max_attempts}

abbrev silent_hook : PaymentHook
silent_hook = record {
  on_paid = λ k db. (ok tt, db);
  keeps_invoices = λ k db. refl;
  keeps_payments = λ k db. refl;
  keeps_addresses = λ k db. refl;
  next_id_grows = λ k db. omega arith;
}

abbrev clear_net : Network
clear_net = record {
  urlparse = λ url. some (record {
    scheme = "https";
    username = none;
    password = none;
    hostname = some "shop.example";
  });
  ip_address = λ host. none;
  is_onion = λ host. false;
  tor_only = false;
}

abbrev shop : Merchant
shop = record {
  id = 1;
  webhook_url = some "https://shop.example/hook";
  webhook_secret = some "secret";
  prepay_plans = [];
}

abbrev bill : Invoice
bill = record {
  id = 2;
  merchant_id = 1;
  amount_atomic = 500000000;
  amount_xmr = dec (pos 5) 4;
  fiat_currency = none;
  fiat_amount = none;
  fiat_rate = none;
  status = InvoiceStatus.pending;
  description = none;
  metadata_json = none;
  expires_at = seconds 3600;
  paid_at = none;
  created_at = 0;
}

abbrev bill_address : InvoiceAddress
bill_address = record { invoice_id = 2; address = 77; address_index = 3; account_index = 0 }

abbrev first_part : Payment
first_part = record {
  id = 3;
  invoice_id = 2;
  tx_hash = 900;
  amount_atomic = 200000000;
  amount_xmr = dec (pos 2) 4;
  status = PaymentStatus.detected;
  confirmations = 2;
  block_height = none;
  detected_at = 10;
  confirmed_at = none;
}

abbrev attempt : WebhookDelivery
attempt = record {
  id = 4;
  merchant_id = 1;
  invoice_id = some 2;
  event_type = "payment.detected";
  payload = record {
    event = "payment.detected";
    timestamp = 10;
    body = invoice_payload bill;
    dlq_details = none;
  };
  url = "https://shop.example/hook";
  status = WebhookStatus.pending;
  attempts = 2;
  max_attempts = max_attempts;
  last_attempt_at = some 11;
  next_retry_at = some 12;
  response_code = none;
  response_body = none;
  created_at = 10;
}

abbrev tables : Db
tables = record {
  next_id = 5;
  merchants = shop ∷ [];
  invoices = bill ∷ [];
  addresses = bill_address ∷ [];
  payments = first_part ∷ [];
  customers = [];
  subscriptions = [];
  subscription_payments = [];
  renewal_events = [];
  deliveries = attempt ∷ [];
  dead_letters = [];
  audit_log = [];
}

tables-IsConsistent : IsConsistent tables
tables-IsConsistent = record {
  tidy = record {
    invoice_ids = (tt, tt);
    payment_ids = (tt, tt);
    invoices_old = (omega arith, tt);
    payments_old = (omega arith, tt);
    owners_old = (omega arith, tt);
    positive = (omega arith, tt);
  };
  agree = (refl, tt);
}

-- A second transaction to the same subaddress, with enough confirmations.
abbrev incoming : Transfer
incoming = record {
  txid = 901;
  amount = 500000000;
  major = 0;
  minor = 3;
  confirmations = 12;
  height = 100;
}
