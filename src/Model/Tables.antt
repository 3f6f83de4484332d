-- ===== src/Model/Tables.antt =====
-- Queries and writes that several services share. A row that the ORM holds is a value; writing it
-- back replaces the row of its id.
use ghostbill.Prelude.Int.{pos, negsuc}
use ghostbill.Prelude.{
  ℕ, suc, ◌+◌, ◌*◌, ◌/◌, ◌^◌, ltb, leb, get_or, none, some, Bool, true, false, Option, [], ◌∷◌,
  ◌++◌, ◌==◌, ◌||◌, ◌&&◌, select, update_where, any, if◌then◌else◌,
}
use ghostbill.Model.Rounding.{Decimal, dec, infinity, nan}
use ghostbill.Model.Enums.{PaymentStatus, integrity_error}
use ghostbill.Model.Rows.{Merchant, Invoice, InvoiceAddress, Payment, Subscription}
use ghostbill.Model.Session.{Exec, ok, err, modify, scalar_one_or_none}

-- Whether a column `Numeric(precision, scale)` takes a value, which is rounded to the scale, half away
-- from 0.
abbrev pub fits_magnitude : ℕ → ℕ → ℕ → ℕ → Bool
fits_magnitude precision scale n s =
    ltb ((2 * (n * 10 ^ scale) + 10 ^ s) / (2 * 10 ^ s)) (10 ^ precision)

unfoldable pub fits_numeric : ℕ → ℕ → Decimal → Bool
fits_numeric precision scale (dec (pos n) s) = fits_magnitude precision scale n s
fits_numeric precision scale (dec (negsuc n) s) = fits_magnitude precision scale (suc n) s
fits_numeric precision scale (infinity positive) = false
fits_numeric precision scale nan = true

abbrev pub fits_optional : ℕ → ℕ → Option Decimal → Bool
fits_optional precision scale none = true
fits_optional precision scale (some x) = fits_numeric precision scale x

abbrev pub fits_bigint : ℕ → Bool
fits_bigint n = ltb n (2 ^ 63)

abbrev pub fits_integer : ℕ → Bool
fits_integer n = ltb n (2 ^ 31)

-- What the columns and the constraint of `invoices` take; the lengths of texts are left out.
unfoldable pub fits_columns : Invoice → Bool
unfolding fits_numeric
fits_columns i =
    fits_numeric 18 12 i.amount_xmr
    && fits_bigint i.amount_atomic
    && ltb 0 i.amount_atomic
    && fits_optional 18 2 i.fiat_amount
    && fits_optional 18 8 i.fiat_rate

-- What the columns and the constraints of `subscriptions` take.
unfoldable pub fits_subscription : Subscription → Bool
unfolding fits_numeric
fits_subscription s =
    fits_numeric 18 12 s.amount_xmr
    && fits_bigint s.amount_atomic
    && ltb 0 s.amount_atomic
    && ltb 0 s.interval_days
    && fits_integer s.interval_days
    && leb s.grace_days_soft s.grace_days_hard
    && fits_integer s.grace_days_hard
    && fits_integer (get_or s.trial_days 1)

abbrev pub invoice_has_id : ℕ → Invoice → Bool
invoice_has_id k i = i.id == k

abbrev pub payment_has_id : ℕ → Payment → Bool
payment_has_id k p = p.id == k

abbrev pub subscription_has_id : ℕ → Subscription → Bool
subscription_has_id k s = s.id == k

-- `select(Invoice).where(Invoice.id == k)`
abbrev pub find_invoice : ℕ → Exec (Option Invoice)
find_invoice k db = (scalar_one_or_none (select (invoice_has_id k) db.invoices), db)

abbrev pub find_merchant : ℕ → Exec (Option Merchant)
find_merchant k db = (scalar_one_or_none (select (λ m. m.id == k) db.merchants), db)

abbrev pub find_subscription : ℕ → Exec (Option Subscription)
find_subscription k db = (scalar_one_or_none (select (subscription_has_id k) db.subscriptions), db)

abbrev pub put_invoice : Invoice → Exec (Unit {0})
put_invoice i =
    modify λ db. record db { invoices = update_where (invoice_has_id i.id) (λ _. i) db.invoices }

abbrev pub put_payment : Payment → Exec (Unit {0})
put_payment p =
    modify λ db. record db { payments = update_where (payment_has_id p.id) (λ _. p) db.payments }

abbrev pub put_subscription : Subscription → Exec (Unit {0})
put_subscription s = modify λ db. record db {
  subscriptions = update_where (subscription_has_id s.id) (λ _. s) db.subscriptions;
}

abbrev pub add_invoice : Invoice → Exec (Unit {0})
add_invoice i = modify λ db. record db { invoices = db.invoices ++ i ∷ [] }

abbrev pub delete_invoice : ℕ → Exec (Unit {0})
delete_invoice k =
    modify
      λ db. record db { invoices = select (λ i. if i.id == k then false else true) db.invoices }

-- The unique indexes of `invoice_addresses`.
abbrev pub same_address : InvoiceAddress → InvoiceAddress → Bool
same_address a b =
    a.invoice_id == b.invoice_id
    || a.address == b.address
    || (a.account_index == b.account_index && a.address_index == b.address_index)

abbrev pub add_address : InvoiceAddress → Exec (Unit {0})
add_address a db =
    if any (same_address a) db.addresses
    then (err integrity_error, db)
    else (ok tt, record db { addresses = db.addresses ++ a ∷ [] })

-- A payment that is detected or confirmed.
abbrev pub is_live_payment : Payment → Bool
is_live_payment p = elim p.status [ PaymentStatus.orphaned ↦ false | _ ↦ true ]

abbrev pub is_live_payment_of : ℕ → Payment → Bool
is_live_payment_of k p = p.invoice_id == k && is_live_payment p
