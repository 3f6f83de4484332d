-- ===== src/Payment/Writes.antt =====
-- What one write to the payments table does to the invariant.
use mathlib.Core.List.{map}
use ghostbill.Prelude.{
  ℕ, suc, ◌<◌, ◌≡◌, refl, sym, subst, ◌∙◌, false, List, [], ◌∷◌, ◌++◌, All, update_where, arith,
}
use ghostbill.Prelude.Keys.{
  In, All-map, All-in, All-append_one, All-update_where, map-update_where, Distinct-key,
  Distinct-append_one, All-to_map,
}
use ghostbill.Model.{Db, Invoice, Payment, AuditLog, invoice_has_id, payment_has_id}
use ghostbill.Payment.{confirmed_sum}
use ghostbill.Payment.Settlement.{Agrees, Settles}
use ghostbill.Payment.Sums.{share, share-other, confirmed_sum-append, confirmed_sum-update}
use ghostbill.Payment.Agreement.{IsTidy, OthersAgree}

-- The database with another payments table, and with what else may be written beside it.
abbrev pub with_payments : Db → ℕ → List Payment → List AuditLog → Db
with_payments db next_id payments audit_log = record db {
  next_id = next_id;
  payments = payments;
  audit_log = audit_log;
}

map-append_one :
    (f : Payment → ℕ) (ps : List Payment) (p : Payment)
    → map f (ps ++ p ∷ []) ≡ map f ps ++ f p ∷ []
map-append_one f [] p = refl
map-append_one f (q ∷ ps) p = cc (map-append_one f ps p)

-- A sum that is the same as before leaves an invoice in agreement.
Agrees-same_sum :
    (i : Invoice) (ps qs : List Payment)
    → confirmed_sum i.id qs ≡ confirmed_sum i.id ps
    → Agrees ps i
    → Agrees qs i
Agrees-same_sum i ps qs e h = subst (λ s. Settles i.status s i.amount_atomic) (sym e) h

module _ (db : Db) (p : Payment) (log : List AuditLog) where
  abbrev added : Db
  added = with_payments db (suc db.next_id) (db.payments ++ p ∷ []) log

  -- A payment with a fresh id for a known invoice keeps the tables tidy.
  pub added-IsTidy : p.id ≡ db.next_id → p.invoice_id < db.next_id → IsTidy db → IsTidy added
  added-IsTidy fresh owner t = record {
    invoice_ids = t.invoice_ids;
    payment_ids = rw (map-append_one (λ q. q.id) db.payments p) (
        Distinct-append_one (map (λ (q : Payment). q.id) db.payments) p.id db.next_id
          (All-to_map (λ k. k < db.next_id) (λ q. q.id) db.payments t.payments_old) (omega arith)
          t.payment_ids);
    invoices_old =
        All-map (λ i. i.id < db.next_id) (λ i. i.id < suc db.next_id) db.invoices
          (λ i h. omega arith) t.invoices_old;
    payments_old =
        All-append_one (λ q. q.id < suc db.next_id) db.payments p
          (All-map (λ q. q.id < db.next_id) (λ q. q.id < suc db.next_id) db.payments
            (λ q h. omega arith) t.payments_old)
          (omega arith);
    owners_old =
        All-append_one (λ q. q.invoice_id < suc db.next_id) db.payments p
          (All-map (λ q. q.invoice_id < db.next_id) (λ q. q.invoice_id < suc db.next_id) db.payments
            (λ q h. omega arith) t.owners_old)
          (omega arith);
    positive = t.positive;
  }

  -- It has no share in another invoice.
  pub added-OthersAgree : All (Agrees db.payments) db.invoices → OthersAgree p.invoice_id added
  added-OthersAgree agree =
      All-map (Agrees db.payments)
        (λ i. invoice_has_id p.invoice_id i ≡ false → Agrees (db.payments ++ p ∷ []) i) db.invoices
        (λ i h other.
          Agrees-same_sum i db.payments (db.payments ++ p ∷ [])
            (omega (
              arith,
              confirmed_sum-append i.id db.payments p,
              share-other i.id p (λ e. ground arith),
            ))
            h)
        agree

module _ (db : Db) (old new : Payment) (log : List AuditLog) where
  abbrev written : Db
  written =
      with_payments db db.next_id (update_where (payment_has_id new.id) (λ _. new) db.payments) log

  pub written-IsTidy :
      new.id ≡ old.id
      → new.invoice_id ≡ old.invoice_id
      → In old db.payments
      → IsTidy db
      → IsTidy written
  written-IsTidy same_id same_owner there t = record {
    invoice_ids = t.invoice_ids;
    payment_ids =
        rw (map-update_where (λ (q : Payment). q.id) new.id new db.payments refl) t.payment_ids;
    invoices_old = t.invoices_old;
    payments_old =
        All-update_where (λ q. q.id < db.next_id) (payment_has_id new.id) db.payments new
          (All-map (λ q. q.id < db.next_id)
            (λ q. payment_has_id new.id q ≡ false → q.id < db.next_id) db.payments (λ q h _. h)
            t.payments_old)
          (rw same_id (All-in (λ q. q.id < db.next_id) there t.payments_old));
    owners_old =
        All-update_where (λ q. q.invoice_id < db.next_id) (payment_has_id new.id) db.payments new
          (All-map (λ q. q.invoice_id < db.next_id)
            (λ q. payment_has_id new.id q ≡ false → q.invoice_id < db.next_id) db.payments
            (λ q h _. h) t.owners_old)
          (rw same_owner (All-in (λ q. q.invoice_id < db.next_id) there t.owners_old));
    positive = t.positive;
  }

  sum_same :
      (k : ℕ)
      → new.id ≡ old.id
      → In old db.payments
      → IsTidy db
      → share k new ≡ share k old
      → confirmed_sum k (update_where (payment_has_id new.id) (λ _. new) db.payments)
        ≡ confirmed_sum k db.payments
  sum_same k same_id there t e =
      confirmed_sum-update k old new db.payments
        (rw same_id (Distinct-key (λ (q : Payment). q.id) db.payments t.payment_ids there)) e

  pub written-OthersAgree :
      new.id ≡ old.id
      → new.invoice_id ≡ old.invoice_id
      → In old db.payments
      → IsTidy db
      → All (Agrees db.payments) db.invoices
      → OthersAgree old.invoice_id written
  written-OthersAgree same_id same_owner there t agree =
      All-map (Agrees db.payments)
        (λ i. invoice_has_id old.invoice_id i ≡ false → Agrees written.payments i) db.invoices
        (λ i h other.
          Agrees-same_sum i db.payments written.payments
            (sum_same i.id same_id there t (
              share-other i.id new (λ e. ground arith)
              ∙ sym (share-other i.id old (λ e. ground arith))))
            h)
        agree

  -- A write that leaves the payment's share as it was leaves every invoice in agreement.
  pub written-agree :
      new.id ≡ old.id
      → In old db.payments
      → IsTidy db
      → ((k : ℕ) → share k new ≡ share k old)
      → All (Agrees db.payments) db.invoices
      → All (Agrees written.payments) db.invoices
  written-agree same_id there t e agree =
      All-map (Agrees db.payments) (Agrees written.payments) db.invoices
        (λ i h.
          Agrees-same_sum i db.payments written.payments (sum_same i.id same_id there t (e i.id)) h)
        agree
