-- ===== src/Payment/Agreement.antt =====
-- The invariant of the invoices and payments tables, and that a recalculation restores it.
use mathlib.Core.List.{map}
use ghostbill.Prelude.{
  ℕ, ◌≤◌, ◌<◌, ◌≡◌, sym, subst, ◌≢◌, true, false, Bool-cases, inl, inr, List, [], ◌∷◌, All, select,
  arith,
}
use ghostbill.Prelude.Keys.{
  In, Distinct, All-map, All-both, All-in, All-update_where, map-update_where, Distinct-key,
  select-In,
}
use ghostbill.Model.{Db, Invoice, InvoiceStatus, Payment, Result, invoice_has_id}
use ghostbill.Payment.{confirmed_sum}
use ghostbill.Payment.Service.{recalculate_invoice_status}
use ghostbill.Payment.Hook.{PaymentHook}
use ghostbill.Payment.Settlement.{
  Agrees, Settles, Applied, target_status-Settles, recalculate-Applied,
}

-- Keys differ, ids are below the next one, and amounts are above 0.
pub record IsTidy (db : Db) : Type 0 where
  pub invoice_ids : Distinct (map (λ (i : Invoice). i.id) db.invoices)
  pub payment_ids : Distinct (map (λ (p : Payment). p.id) db.payments)
  pub invoices_old : All (λ (i : Invoice). i.id < db.next_id) db.invoices
  pub payments_old : All (λ (p : Payment). p.id < db.next_id) db.payments
  pub owners_old : All (λ (p : Payment). p.invoice_id < db.next_id) db.payments
  pub positive : All (λ (i : Invoice). 0 < i.amount_atomic) db.invoices

-- And the status of every invoice says the truth about its confirmed payments.
pub record IsConsistent (db : Db) : Type 0 where
  pub tidy : IsTidy db
  pub agree : All (Agrees db.payments) db.invoices

-- The same invoices and payments, whatever else has changed.
pub unchanged-IsConsistent :
    {a b : Db}
    → b.invoices ≡ a.invoices
    → b.payments ≡ a.payments
    → a.next_id ≤ b.next_id
    → IsConsistent a
    → IsConsistent b
unchanged-IsConsistent {a} {b} invoices payments next_id c = record {
  tidy = record {
    invoice_ids = rw invoices c.tidy.invoice_ids;
    payment_ids = rw payments c.tidy.payment_ids;
    invoices_old = rw invoices (
        All-map (λ i. i.id < a.next_id) (λ i. i.id < b.next_id) a.invoices (λ i h. omega arith)
          c.tidy.invoices_old);
    payments_old = rw payments (
        All-map (λ p. p.id < a.next_id) (λ p. p.id < b.next_id) a.payments (λ p h. omega arith)
          c.tidy.payments_old);
    owners_old = rw payments (
        All-map (λ p. p.invoice_id < a.next_id) (λ p. p.invoice_id < b.next_id) a.payments
          (λ p h. omega arith) c.tidy.owners_old);
    positive = rw invoices c.tidy.positive;
  };
  agree = rw (invoices, payments) c.agree;
}

-- The invoices other than one agree with their payments.
abbrev pub OthersAgree : ℕ → Db → Type 0
OthersAgree k db = All (λ i. invoice_has_id k i ≡ false → Agrees db.payments i) db.invoices

-- All agree, if the others do and one does.
pub others_and_one :
    (payments : List Payment) (invoice : Invoice) (invoices : List Invoice)
    → All (λ i. invoice_has_id invoice.id i ≡ false → Agrees payments i) invoices
    → All (λ i. invoice_has_id invoice.id i ≡ true → i ≡ invoice) invoices
    → Agrees payments invoice
    → All (Agrees payments) invoices
others_and_one payments invoice invoices others one agrees =
    All-map
      (λ i.
        (invoice_has_id invoice.id i ≡ false → Agrees payments i)
        × (invoice_has_id invoice.id i ≡ true → i ≡ invoice))
      (Agrees payments) invoices
      (λ i (other, same). elim (Bool-cases (invoice_has_id invoice.id i)) [
        | inl hit ↦ subst (Agrees payments) (sym (same hit)) agrees
        | inr miss ↦ other miss
      ])
      (All-both (λ i. invoice_has_id invoice.id i ≡ false → Agrees payments i)
        (λ i. invoice_has_id invoice.id i ≡ true → i ≡ invoice) invoices others one)

module _ {invoice : Invoice} {target : InvoiceStatus} {db : Db} {out : Result Invoice × Db} where
  -- What holds of every invoice and of the new row holds of every invoice afterwards.
  All-written :
      (P : Invoice → Type 0) (a : Applied invoice target db out)
      → All P db.invoices
      → P a.after
      → All P out.1.invoices
  All-written P a all after = elim a.written [
    | inl (_, same) ↦ rw same all
    | inr changed ↦ rw changed (
        All-update_where P (invoice_has_id invoice.id) db.invoices a.after
          (All-map P (λ i. invoice_has_id invoice.id i ≡ false → P i) db.invoices (λ i p _. p) all)
          after)
  ]

  ids-written :
      (a : Applied invoice target db out)
      → map (λ (i : Invoice). i.id) out.1.invoices ≡ map (λ (i : Invoice). i.id) db.invoices
  ids-written a = elim a.written [
    | inl (_, same) ↦ rw same
    | inr changed ↦
        rw changed (map-update_where (λ i. i.id) invoice.id a.after db.invoices a.restatus.same_id)
  ]

  pub Applied-IsTidy :
      Applied invoice target db out → In invoice db.invoices → IsTidy db → IsTidy out.1
  Applied-IsTidy a there t = record {
    invoice_ids = rw (ids-written a) t.invoice_ids;
    payment_ids = rw a.payments_kept t.payment_ids;
    invoices_old =
        All-map (λ i. i.id < db.next_id) (λ i. i.id < out.1.next_id) out.1.invoices
          (λ i h. omega (arith, a.next_id_grows))
          (All-written (λ i. i.id < db.next_id) a t.invoices_old
            (rw a.restatus.same_id (All-in (λ i. i.id < db.next_id) there t.invoices_old)));
    payments_old = rw a.payments_kept (
        All-map (λ p. p.id < db.next_id) (λ p. p.id < out.1.next_id) db.payments
          (λ p h. omega (arith, a.next_id_grows)) t.payments_old);
    owners_old = rw a.payments_kept (
        All-map (λ p. p.invoice_id < db.next_id) (λ p. p.invoice_id < out.1.next_id) db.payments
          (λ p h. omega (arith, a.next_id_grows)) t.owners_old);
    positive =
        All-written (λ i. 0 < i.amount_atomic) a t.positive
          (rw a.restatus.same_amount (All-in (λ i. 0 < i.amount_atomic) there t.positive));
  }

  after-Agrees :
      (a : Applied invoice target db out)
      → Settles target (confirmed_sum invoice.id db.payments) invoice.amount_atomic
      → Agrees db.payments a.after
  after-Agrees a truth =
      let status =
        subst (λ s. Settles s (confirmed_sum invoice.id db.payments) invoice.amount_atomic)
          (sym a.reached) truth in
      let amount =
        subst (λ m. Settles a.after.status (confirmed_sum invoice.id db.payments) m)
          (sym a.restatus.same_amount) status in
      subst (λ k. Settles a.after.status (confirmed_sum k db.payments) a.after.amount_atomic)
        (sym a.restatus.same_id) amount

  -- If the others agreed and the new status says the truth, all agree.
  pub Applied-agree :
      (a : Applied invoice target db out)
      → In invoice db.invoices
      → IsTidy db
      → OthersAgree invoice.id db
      → Settles target (confirmed_sum invoice.id db.payments) invoice.amount_atomic
      → All (Agrees out.1.payments) out.1.invoices
  Applied-agree a there t others truth = rw a.payments_kept (elim a.written [
    | inl (unchanged, same) ↦ rw same (
        others_and_one db.payments invoice db.invoices others
          (Distinct-key (λ i. i.id) db.invoices t.invoice_ids there)
          (subst (Agrees db.payments) unchanged (after-Agrees a truth)))
    | inr changed ↦ rw changed (
        All-update_where (Agrees db.payments) (invoice_has_id invoice.id) db.invoices a.after others
          (after-Agrees a truth))
  ])

module _ (hook : PaymentHook) where
  -- After a recalculation of an invoice that is not cancelled every invoice agrees with its payments,
  -- if the others did before.
  pub recalculate-IsConsistent :
      (now : ℕ) (stale invoice : Invoice) (db : Db)
      → select (invoice_has_id stale.id) db.invoices ≡ invoice ∷ []
      → invoice.status ≢ InvoiceStatus.cancelled
      → IsTidy db
      → OthersAgree invoice.id db
      → IsConsistent (recalculate_invoice_status hook now stale db).1
  recalculate-IsConsistent now stale invoice db found live t others =
      let there = select-In (invoice_has_id stale.id) db.invoices found in
      let a = recalculate-Applied hook now stale invoice db found live in
      record {
        tidy = Applied-IsTidy a there t;
        agree = Applied-agree a there t others (
            target_status-Settles invoice.status (confirmed_sum invoice.id db.payments)
              invoice.amount_atomic (All-in (λ i. 0 < i.amount_atomic) there t.positive));
      }
