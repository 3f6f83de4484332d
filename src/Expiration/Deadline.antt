-- ===== src/Expiration/Deadline.antt =====
-- `expire_pending_invoices`: the invoices that it takes, and the invariant.
use mathlib.Core.List.{map}
use ghostbill.Prelude.{
  ℕ, ◌<◌, ◌≤◌, ◌≢◌, ◌⊎◌, ap, ◌∙◌, ◌≡◌, refl, sym, subst, true, false, Bool-cases, inl, inr, List,
  [], ◌∷◌, All, arith, update_where, any, select, none,
}
use ghostbill.Prelude.Keys.{In, head, tail, All-map, All-both}
use ghostbill.Model.{
  Db, Invoice, Payment, Merchant, InvoiceStatus, bind_run, is_live_payment_of, ◌>>◌, pure,
}
use ghostbill.Tor.{Network}
use ghostbill.Webhook.{dispatch_events}
use ghostbill.Webhook.Queueing.{IsKept, IsKept-refl, IsKept-trans, dispatch_events-IsKept}
use ghostbill.Payment.{confirmed_sum}
use ghostbill.Payment.Settlement.{Agrees, Settles}
use ghostbill.Payment.Agreement.{IsConsistent, unchanged-IsConsistent}
use ghostbill.Expiration.{
  is_overdue, expired_row, expire_rows, audit_each, announce_to, announce_each, report_expired,
  expire_pending_invoices,
}

audit_each-IsKept : (is : List Invoice) (db : Db) → IsKept db (audit_each is db).1
audit_each-IsKept [] db = IsKept-refl db
audit_each-IsKept (i ∷ is) db =
    IsKept-trans
      (record {
        invoices = refl;
        payments = refl;
        addresses = refl;
        subscriptions = refl;
        next_id = omega arith;
      })
      (audit_each-IsKept is _)

module _ (net : Network) (now : ℕ) where
  announce_to-IsKept :
      (i : Invoice) (ms : List Merchant) (db : Db) → IsKept db (announce_to net now i ms db).1
  announce_to-IsKept i [] db = IsKept-refl db
  announce_to-IsKept i (m ∷ ms) db =
      let sent = dispatch_events-IsKept net now m ("invoice.expired" ∷ []) i none db in
      bind_run (λ out. IsKept db out.1) (dispatch_events net now ("invoice.expired" ∷ []) m i none)
        (λ _. announce_to net now i ms) db (λ e failed. sent)
        (λ x passed. IsKept-trans sent (announce_to-IsKept i ms _))

  announce_each-IsKept : (is : List Invoice) (db : Db) → IsKept db (announce_each net now is db).1
  announce_each-IsKept [] db = IsKept-refl db
  announce_each-IsKept (i ∷ is) db =
      let sent = announce_to-IsKept i _ db in
      bind_run (λ out. IsKept db out.1) (announce_to net now i _) (λ _. announce_each net now is) db
        (λ e failed. sent) (λ x passed. IsKept-trans sent (announce_each-IsKept is _))

  report_expired-IsKept : (is : List Invoice) (db : Db) → IsKept db (report_expired net now is db).1
  report_expired-IsKept [] db = IsKept-refl db
  report_expired-IsKept (i ∷ is) db =
      let logged = audit_each-IsKept (i ∷ is) db in
      bind_run (λ out. IsKept db out.1) (audit_each (i ∷ is))
        (λ _. announce_each net now (i ∷ is) >> pure (map (λ x. x.id) (i ∷ is))) db
        (λ e failed. logged)
        (λ x passed.
          bind_run (λ out. IsKept db out.1) (announce_each net now (i ∷ is))
            (λ _. pure (map (λ x. x.id) (i ∷ is))) (audit_each (i ∷ is) db).1
            (λ e failed. IsKept-trans logged (announce_each-IsKept (i ∷ is) _))
            (λ y passed. IsKept-trans logged (announce_each-IsKept (i ∷ is) _)))

  -- A run changes invoices as the update does, and no payments.
  expire-IsKept : (db : Db) → IsKept (expire_rows now db) (expire_pending_invoices net now db).1
  unfolding expire_pending_invoices
  expire-IsKept db =
      report_expired-IsKept (map expired_row (select (is_overdue now db.payments) db.invoices))
        (expire_rows now db)

module _ (now : ℕ) (payments : List Payment) where
  expired_ids :
      (is : List Invoice)
      → map (λ (i : Invoice). i.id) (update_where (is_overdue now payments) expired_row is)
        ≡ map (λ (i : Invoice). i.id) is
  expired_ids [] = refl
  expired_ids (i ∷ is) = elim (Bool-cases (is_overdue now payments i)) [
    | inl over ↦ rw over (cc (expired_ids is))
    | inr young ↦ rw young (cc (expired_ids is))
  ]

  -- What holds of each row, and of each row once it is expired, holds afterwards.
  All-expired :
      (P : Invoice → Type 0) (is : List Invoice)
      → All P is
      → ((i : Invoice) → is_overdue now payments i ≡ true → P i → P (expired_row i))
      → All P (update_where (is_overdue now payments) expired_row is)
  All-expired P [] h f = tt
  All-expired P (i ∷ is) (h, hs) f = elim (Bool-cases (is_overdue now payments i)) [
    | inl over ↦ rw over (f i over h, All-expired P is hs f)
    | inr young ↦ rw young (h, All-expired P is hs f)
  ]

  overdue_pending :
      (i : Invoice) → is_overdue now payments i ≡ true → i.status ≡ InvoiceStatus.pending
  unfolding is_overdue
  overdue_pending i h = ground arith

  -- A pending invoice in agreement has no confirmed payment, so less than it asks for.
  expired-Agrees :
      (i : Invoice)
      → is_overdue now payments i ≡ true
      → (0 < i.amount_atomic) × Agrees payments i
      → (0 < i.amount_atomic) × Agrees payments (expired_row i)
  expired-Agrees i over (positive, agrees) =
      let empty : confirmed_sum i.id payments ≡ 0 =
        subst (λ s. Settles s (confirmed_sum i.id payments) i.amount_atomic)
          (overdue_pending i over) agrees in
      (positive, omega arith)

IsKept-IsConsistent : {a b : Db} → IsKept a b → IsConsistent a → IsConsistent b
IsKept-IsConsistent k c = unchanged-IsConsistent k.invoices k.payments k.next_id c

rows-IsConsistent : (now : ℕ) (db : Db) → IsConsistent db → IsConsistent (expire_rows now db)
rows-IsConsistent now db c = record {
  tidy = record {
    invoice_ids = rw (expired_ids now db.payments db.invoices) c.tidy.invoice_ids;
    payment_ids = c.tidy.payment_ids;
    invoices_old =
        All-expired now db.payments (λ i. i.id < db.next_id) db.invoices c.tidy.invoices_old
          (λ i over h. h);
    payments_old = c.tidy.payments_old;
    owners_old = c.tidy.owners_old;
    positive =
        All-expired now db.payments (λ i. 0 < i.amount_atomic) db.invoices c.tidy.positive
          (λ i over h. h);
  };
  agree =
      All-map (λ i. (0 < i.amount_atomic) × Agrees db.payments i) (Agrees db.payments)
        (expire_rows now db).invoices (λ i h. h.1)
        (All-expired now db.payments (λ i. (0 < i.amount_atomic) × Agrees db.payments i) db.invoices
          (All-both (λ i. 0 < i.amount_atomic) (Agrees db.payments) db.invoices c.tidy.positive
            c.agree)
          (expired-Agrees now db.payments));
}

-- Expiring invoices keeps the status of every invoice true to its payments.
pub expire_pending_invoices-IsConsistent :
    (net : Network) (now : ℕ) (db : Db)
    → IsConsistent db
    → IsConsistent (expire_pending_invoices net now db).1
expire_pending_invoices-IsConsistent net now db c =
    IsKept-IsConsistent (expire-IsKept net now db) (rows-IsConsistent now db c)

-- What a run does to an invoice.
pub record Expires (now : ℕ) (payments : List Payment) (i : Invoice) (after : List Invoice)
    : Type 0 where
  pub late :
      i.status ≡ InvoiceStatus.pending
      → i.expires_at < now
      → any (is_live_payment_of i.id) payments ≡ false
      → In (record i { status = InvoiceStatus.expired }) after
  pub kept :
      (i.status ≢ InvoiceStatus.pending)
        ⊎ (now ≤ i.expires_at)
        ⊎ (any (is_live_payment_of i.id) payments ≡ true)
      → In i after

late_expires :
    (now : ℕ) (payments : List Payment) (i : Invoice) (is : List Invoice)
    → In i is
    → is_overdue now payments i ≡ true
    → In (expired_row i) (update_where (is_overdue now payments) expired_row is)
late_expires now payments i [] there over = elim there [ ]
late_expires now payments i (x ∷ is) (head e) over =
    let hit : is_overdue now payments x ≡ true =
      subst (λ z. is_overdue now payments z ≡ true) (sym e) over in
    rw hit (head (ap expired_row e))
late_expires now payments i (x ∷ is) (tail m) over = tail (late_expires now payments i is m over)

other_kept :
    (now : ℕ) (payments : List Payment) (i : Invoice) (is : List Invoice)
    → In i is
    → is_overdue now payments i ≡ false
    → In i (update_where (is_overdue now payments) expired_row is)
other_kept now payments i [] there young = elim there [ ]
other_kept now payments i (x ∷ is) (head e) young =
    let miss : is_overdue now payments x ≡ false =
      subst (λ z. is_overdue now payments z ≡ false) (sym e) young in
    rw miss (head e)
other_kept now payments i (x ∷ is) (tail m) young = tail (other_kept now payments i is m young)

is_overdue-true :
    (now : ℕ) (payments : List Payment) (i : Invoice)
    → i.status ≡ InvoiceStatus.pending
    → i.expires_at < now
    → any (is_live_payment_of i.id) payments ≡ false
    → is_overdue now payments i ≡ true
unfolding is_overdue
is_overdue-true now payments i p l n = ground arith

is_overdue-false :
    (now : ℕ) (payments : List Payment) (i : Invoice)
    → (i.status ≢ InvoiceStatus.pending)
      ⊎ (now ≤ i.expires_at)
      ⊎ (any (is_live_payment_of i.id) payments ≡ true)
    → is_overdue now payments i ≡ false
unfolding is_overdue
is_overdue-false now payments i h = ground arith

-- After a run every invoice that was pending, past its time and without a detected or confirmed payment is
-- expired and else as before; every other invoice is as before; no invoice is added or lost, and no
-- payment changes.
pub expire_pending_invoices_lem :
    (net : Network) (now : ℕ) (db : Db)
    → let out = (expire_pending_invoices net now db).1 in
      (map (λ i. i.id) out.invoices ≡ map (λ i. i.id) db.invoices)
      × (out.payments ≡ db.payments)
      × ((i : Invoice) → In i db.invoices → Expires now db.payments i out.invoices)
expire_pending_invoices_lem net now db =
    let k = expire-IsKept net now db in
    (
      ap (map (λ i. i.id)) k.invoices ∙ expired_ids now db.payments db.invoices,
      k.payments,
      λ i there. record {
        late = λ p l n. rw k.invoices (
            late_expires now db.payments i db.invoices there
              (is_overdue-true now db.payments i p l n));
        kept = λ h.
            rw k.invoices (
              other_kept now db.payments i db.invoices there
                (is_overdue-false now db.payments i h));
      },
    )
