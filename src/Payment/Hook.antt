-- ===== src/Payment/Hook.antt =====
-- What the payment service asks of the subscription service: an action for an invoice that has
-- been paid, which leaves invoices, payments and addresses alone.
use ghostbill.Prelude.{ℕ, ◌≡◌, ◌≤◌}
use ghostbill.Model.{Exec, Db}

pub record PaymentHook : Type 0 where
  pub on_paid : ℕ → Exec (Unit {0})
  pub keeps_invoices : (k : ℕ) (db : Db) → (on_paid k db).1.invoices ≡ db.invoices
  pub keeps_payments : (k : ℕ) (db : Db) → (on_paid k db).1.payments ≡ db.payments
  pub keeps_addresses : (k : ℕ) (db : Db) → (on_paid k db).1.addresses ≡ db.addresses
  pub next_id_grows : (k : ℕ) (db : Db) → db.next_id ≤ (on_paid k db).1.next_id
