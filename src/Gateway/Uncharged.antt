-- ===== src/Gateway/Uncharged.antt =====
-- The loop of `cancel_subscription` over the invoices that it finds.
use ghostbill.Prelude.{
  ℕ, ◌≡◌, ◌≢◌, refl, ap, sym, subst, ◌∙◌, List, [], ◌∷◌, Option, none, some, arith, select, true,
  false, ◌⊎◌, inl, inr, Bool, Bool-cases, length, ==_refl, update_where, ◌==◌, ◌&&◌,
}
use ghostbill.Prelude.Keys.{
  In, All-in, select-In, select-test, select-nil, select-one, select_two, In-written, In-unwritten,
  Distinct-key,
}
use ghostbill.Model.{
  Db, Invoice, InvoiceStatus, is_invoice_status, Payment, Result, ok, err, scalar_one_or_none,
  scalar-some, invoice_has_id, is_live_payment_of,
}
use ghostbill.Invoice.{cancel_invoice, get_invoice, is_invoice_of}
use ghostbill.Payment.Agreement.{IsConsistent}
use ghostbill.Gateway.Cancel.{cancel_found}

abbrev pub cancelled_row : Invoice → Invoice
cancelled_row i = record i { status = InvoiceStatus.cancelled }

-- The tables beside the invoices.
pub record Beside (a b : Db) : Type 0 where
  pub payments : b.payments ≡ a.payments
  pub subscriptions : b.subscriptions ≡ a.subscriptions

-- Whether a row can be cancelled by the merchant.
abbrev pub is_cancellable : ℕ → List Payment → Invoice → Bool
is_cancellable merchant_id payments i =
    i.merchant_id == merchant_id
    && (is_invoice_status i.status InvoiceStatus.pending
        && (length (select (is_live_payment_of i.id) payments) == 0))

pub cancellable_fields :
    (m : ℕ) (ps : List Payment) (i : Invoice)
    → is_cancellable m ps i ≡ true
    → (i.merchant_id ≡ m)
      × (i.status ≡ InvoiceStatus.pending)
      × (length (select (is_live_payment_of i.id) ps) ≡ 0)
cancellable_fields m ps i h = (ground arith, ground arith, ground arith)

is_open_lem :
    (m : ℕ) (ps : List Payment) (i : Invoice)
    → i.merchant_id ≡ m
    → i.status ≡ InvoiceStatus.pending
    → length (select (is_live_payment_of i.id) ps) ≡ 0
    → is_cancellable m ps i ≡ true
is_open_lem m ps i own waiting unpaid = ground arith

-- What one cancellation may do.
abbrev Effect : ℕ → ℕ → Db → Db → Type 0
Effect merchant_id id a b =
    Beside a b
    × ((b.invoices ≡ a.invoices)
        ⊎ ((i : Invoice) × In i a.invoices
            × (i.id ≡ id)
            × (i.status ≡ InvoiceStatus.pending)
            × (i.merchant_id ≡ merchant_id)
            × (length (select (is_live_payment_of i.id) a.payments) ≡ 0)
            × (b.invoices ≡ update_where (invoice_has_id i.id) (λ _. cancelled_row i) a.invoices)))

same_id : (m id : ℕ) (i : Invoice) → is_invoice_of m id i ≡ true → i.id ≡ id
same_id m id i h = ground arith

same_merchant : (m id : ℕ) (i : Invoice) → is_invoice_of m id i ≡ true → i.merchant_id ≡ m
same_merchant m id i h = ground arith

module _ (merchant_id id : ℕ) (db : Db) where
  one_cancel_by :
      (r : Result (Option Invoice))
      → scalar_one_or_none (select (is_invoice_of merchant_id id) db.invoices) ≡ r
      → Effect merchant_id id db (cancel_invoice merchant_id id db).1
  unfolding cancel_invoice get_invoice
  one_cancel_by (err e) h =
      let same : (cancel_invoice merchant_id id db).1 ≡ db = ground (arith, h) in
      subst (Effect merchant_id id db) (sym same)
        (record { payments = refl; subscriptions = refl }, inl refl)
  one_cancel_by (ok none) h =
      let same : (cancel_invoice merchant_id id db).1 ≡ db = ground (arith, h) in
      subst (Effect merchant_id id db) (sym same)
        (record { payments = refl; subscriptions = refl }, inl refl)
  one_cancel_by (ok (some i)) h =
      let one = scalar-some _ i h in
      let hit = select-test (is_invoice_of merchant_id id) db.invoices one in
      elim (cancel_found merchant_id id db i one) [
        | inl (waiting, unpaid, (log, e)) ↦
            subst (λ out. Effect merchant_id id db out.1) (sym e)
              (
                record { payments = refl; subscriptions = refl },
                inr (
                  i,
                  select-In (is_invoice_of merchant_id id) db.invoices one,
                  same_id merchant_id id i hit,
                  waiting,
                  same_merchant merchant_id id i hit,
                  ap (λ k. length (select (is_live_payment_of k) db.payments))
                        (same_id merchant_id id i hit)
                      ∙ unpaid,
                  refl,
                ),
              )
        | inr (why, e) ↦
            subst (λ out. Effect merchant_id id db out.1) (sym e)
              (record { payments = refl; subscriptions = refl }, inl refl)
      ]

  pub one_cancel : Effect merchant_id id db (cancel_invoice merchant_id id db).1
  one_cancel = one_cancel_by _ refl

  -- A row of another id stays.
  pub other_stays :
      (j : Invoice)
      → In j db.invoices
      → j.id ≢ id
      → In j (cancel_invoice merchant_id id db).1.invoices
  other_stays j there other =
      let (beside, done) = one_cancel in
      elim done [
        | inl same ↦ rw same there
        | inr (i, found, of_id, waiting, own, unpaid, e) ↦
            let miss : invoice_has_id i.id j ≡ false = ground (arith, of_id, other) in
            rw e
              (In-unwritten (invoice_has_id i.id) (λ _. cancelled_row i) db.invoices j there miss)
      ]

  -- A cancelled row stays.
  pub cancelled_stays :
      (c : IsConsistent db) (j : Invoice)
      → In (cancelled_row j) db.invoices
      → In (cancelled_row j) (cancel_invoice merchant_id id db).1.invoices
  cancelled_stays c j there =
      let (beside, done) = one_cancel in
      elim done [
        | inl same ↦ rw same there
        | inr (i, found, of_id, waiting, own, unpaid, e) ↦
            elim (Bool-cases (invoice_has_id i.id (cancelled_row j))) [
              | inr miss ↦ rw e (
                  In-unwritten (invoice_has_id i.id) (λ _. cancelled_row i) db.invoices
                    (cancelled_row j) there miss)
              | inl hit ↦
                  let same : cancelled_row j ≡ i =
                    All-in (λ x. (x.id == i.id) ≡ true → x ≡ i) there
                      (Distinct-key (λ x. x.id) db.invoices c.tidy.invoice_ids found) hit in
                  let clash : InvoiceStatus.cancelled ≡ InvoiceStatus.pending =
                    ap (λ x. x.status) same ∙ waiting in
                  absurd (cc clash)
            ]
      ]

  -- The pending row of the id without live payments is cancelled.
  pub waiting_cancelled :
      (c : IsConsistent db) (j : Invoice)
      → In j db.invoices
      → j.id ≡ id
      → j.merchant_id ≡ merchant_id
      → j.status ≡ InvoiceStatus.pending
      → length (select (is_live_payment_of j.id) db.payments) ≡ 0
      → In (cancelled_row j) (cancel_invoice merchant_id id db).1.invoices
  waiting_cancelled c j there of_id own waiting unpaid = by_rows _ refl
    where
      hit : is_invoice_of merchant_id id j ≡ true
      hit = ground (arith, of_id, own)

      by_rows :
          (rows : List Invoice)
          → select (is_invoice_of merchant_id id) db.invoices ≡ rows
          → In (cancelled_row j) (cancel_invoice merchant_id id db).1.invoices
      by_rows [] e =
          let miss =
            All-in (λ x. is_invoice_of merchant_id id x ≡ false) there
              (select-nil (is_invoice_of merchant_id id) db.invoices e) in
          absurd (cc (hit, miss))
      by_rows (x ∷ y ∷ more) e =
          let (i, k, p, q, ne) =
            select_two (λ i. i.id) (is_invoice_of merchant_id id) db.invoices x y more
              c.tidy.invoice_ids e in
          absurd (ne (same_id merchant_id id x p ∙ sym (same_id merchant_id id y q)))
      by_rows (i ∷ []) e =
          let same : j ≡ i =
            All-in (λ x. is_invoice_of merchant_id id x ≡ true → x ≡ i) there
              (select-one (is_invoice_of merchant_id id) db.invoices i e) hit in
          elim (cancel_found merchant_id id db i e) [
            | inl (pending_i, no_live, (log, run)) ↦ rw run (
                subst
                  (λ x.
                    In (cancelled_row j)
                      (update_where (invoice_has_id x.id) (λ _. cancelled_row x) db.invoices))
                  same
                  (In-written (invoice_has_id j.id) db.invoices j (cancelled_row j) there
                    (==_refl j.id)))
            | inr (inl not_pending, run) ↦
                absurd (not_pending (ap (λ x. x.status) (sym same) ∙ waiting))
            | inr (inr some_live, run) ↦ absurd (
                some_live (
                  ap (λ k. length (select (is_live_payment_of k) db.payments)) (sym of_id)
                  ∙ unpaid))
          ]

  -- A row that cannot be cancelled stays.
  pub closed_stays :
      (c : IsConsistent db) (j : Invoice)
      → In j db.invoices
      → is_cancellable merchant_id db.payments j ≡ false
      → In j (cancel_invoice merchant_id id db).1.invoices
  closed_stays c j there closed =
      let (beside, done) = one_cancel in
      elim done [
        | inl same ↦ rw same there
        | inr (i, found, of_id, waiting, own, unpaid, e) ↦
            elim (Bool-cases (invoice_has_id i.id j)) [
              | inr miss ↦ rw e (
                  In-unwritten (invoice_has_id i.id) (λ _. cancelled_row i) db.invoices j there
                    miss)
              | inl hit ↦
                  let same : j ≡ i =
                    All-in (λ x. (x.id == i.id) ≡ true → x ≡ i) there
                      (Distinct-key (λ x. x.id) db.invoices c.tidy.invoice_ids found) hit in
                  let fits = is_open_lem merchant_id db.payments i own waiting unpaid in
                  absurd (cc (same, fits, closed))
            ]
      ]
