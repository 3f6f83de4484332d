-- ===== src/Gateway/Unlooped.antt =====
-- What `cancel_subscription` does with each row of the invoices.
use ghostbill.Prelude.{
  ℕ, ◌≡◌, ◌≢◌, refl, ap, sym, subst, ◌∙◌, List, [], ◌∷◌, All, select, true, false, inl, inr, Bool,
  Bool-cases, ==_iff, ◌==◌, ◌&&◌, any, if◌then◌else◌, arith,
}
use ghostbill.Prelude.Keys.{
  In, head, tail, In-select, In-map, any-In, All-map, All-by_rows, any-row, any-false, All-selected,
}
use ghostbill.Model.{
  Db, Invoice, Result, ok, err, ◌>>=◌, pure, try_except, bind-ok, InvoiceStatus,
  SubscriptionPayment,
}
use ghostbill.Invoice.{cancel_invoice}
use ghostbill.Subscription.Cancellation.{cancel_each, pending_invoices, is_pending_invoice}
use ghostbill.Payment.Agreement.{IsConsistent}
use ghostbill.Gateway.Cancel.{cancel_invoice-IsConsistent}
use ghostbill.Gateway.Uncharged.{
  Beside, cancelled_row, is_cancellable, cancellable_fields, one_cancel, other_stays,
  cancelled_stays, waiting_cancelled, closed_stays,
}

caught :
    (r : Result Invoice) (db db' : Db)
    → try_except ((λ _. (r, db')) >>= λ _. pure {A = Unit {0}} tt) (pure tt) db ≡ (ok tt, db')
caught (ok i) db db' = refl
caught (err e) db db' = refl

-- A row of the periods of the subscription.
abbrev pub is_charge : ℕ → ℕ → SubscriptionPayment → Bool
is_charge subscription_id invoice_id sp =
    sp.subscription_id == subscription_id && sp.invoice_id == invoice_id

module _ (merchant_id : ℕ) where
  pub cancel_each-step :
      (id : ℕ) (ids : List ℕ) (db : Db)
      → cancel_each merchant_id (id ∷ ids) db
        ≡ cancel_each merchant_id ids (cancel_invoice merchant_id id db).1
  unfolding cancel_each
  cancel_each-step id ids db =
      bind-ok (try_except (cancel_invoice merchant_id id >>= λ _. pure tt) (pure tt))
        (λ _. cancel_each merchant_id ids) db
        (caught (cancel_invoice merchant_id id db).0 db (cancel_invoice merchant_id id db).1)

  pub loop-Beside : (ids : List ℕ) (db : Db) → Beside db (cancel_each merchant_id ids db).1
  unfolding cancel_each
  loop-Beside [] db = record { payments = refl; subscriptions = refl }
  loop-Beside (id ∷ ids) db =
      let (one, _) = one_cancel merchant_id id db in
      let rest = loop-Beside ids (cancel_invoice merchant_id id db).1 in
      subst (λ out. Beside db out.1) (sym (cancel_each-step id ids db))
        (record {
          payments = rest.payments ∙ one.payments;
          subscriptions = rest.subscriptions ∙ one.subscriptions;
        })

  loop_other :
      (j : Invoice) (ids : List ℕ) (db : Db)
      → In j db.invoices
      → All (λ k. j.id ≢ k) ids
      → In j (cancel_each merchant_id ids db).1.invoices
  unfolding cancel_each
  loop_other j [] db there others = there
  loop_other j (id ∷ ids) db there (other, others) =
      subst (λ out. In j out.1.invoices) (sym (cancel_each-step id ids db))
        (loop_other j ids (cancel_invoice merchant_id id db).1
          (other_stays merchant_id id db j there other) others)

  loop_closed :
      (j : Invoice) (ids : List ℕ) (db : Db)
      → IsConsistent db
      → In j db.invoices
      → is_cancellable merchant_id db.payments j ≡ false
      → In j (cancel_each merchant_id ids db).1.invoices
  unfolding cancel_each
  loop_closed j [] db c there closed = there
  loop_closed j (id ∷ ids) db c there closed =
      let (one, _) = one_cancel merchant_id id db in
      subst (λ out. In j out.1.invoices) (sym (cancel_each-step id ids db))
        (loop_closed j ids (cancel_invoice merchant_id id db).1
          (cancel_invoice-IsConsistent merchant_id id db c)
          (closed_stays merchant_id id db c j there closed)
          (ap (λ ps. is_cancellable merchant_id ps j) one.payments ∙ closed))

  loop_cancelled :
      (j : Invoice) (ids : List ℕ) (db : Db)
      → IsConsistent db
      → In (cancelled_row j) db.invoices
      → In (cancelled_row j) (cancel_each merchant_id ids db).1.invoices
  unfolding cancel_each
  loop_cancelled j [] db c there = there
  loop_cancelled j (id ∷ ids) db c there =
      subst (λ out. In (cancelled_row j) out.1.invoices) (sym (cancel_each-step id ids db))
        (loop_cancelled j ids (cancel_invoice merchant_id id db).1
          (cancel_invoice-IsConsistent merchant_id id db c)
          (cancelled_stays merchant_id id db c j there))

  loop_cancels :
      (j : Invoice) (ids : List ℕ) (db : Db)
      → IsConsistent db
      → In j db.invoices
      → is_cancellable merchant_id db.payments j ≡ true
      → In j.id ids
      → In (cancelled_row j) (cancel_each merchant_id ids db).1.invoices
  unfolding cancel_each
  loop_cancels j [] db c there fits named = elim named [ ]
  loop_cancels j (id ∷ ids) db c there fits named =
      let after = (cancel_invoice merchant_id id db).1 in
      let kept = cancel_invoice-IsConsistent merchant_id id db c in
      let (one, _) = one_cancel merchant_id id db in
      let (own, waiting, unpaid) = cancellable_fields merchant_id db.payments j fits in
      let now_cancelled : id ≡ j.id
          → In (cancelled_row j) (cancel_each merchant_id ids after).1.invoices =
        λ e.
          loop_cancelled j ids after kept
            (waiting_cancelled merchant_id id db c j there (sym e) own waiting unpaid) in
      subst (λ out. In (cancelled_row j) out.1.invoices) (sym (cancel_each-step id ids db))
        (elim (Bool-cases (id == j.id)) [
          | inl hit ↦ now_cancelled ((==_iff id j.id).0 hit)
          | inr miss ↦ elim named [
            | head e ↦ now_cancelled e
            | tail later ↦
                loop_cancels j ids after kept (other_stays merchant_id id db j there (ground arith))
                  (ap (λ ps. is_cancellable merchant_id ps j) one.payments ∙ fits) later
          ]
        ])

  module _ (sub_id : ℕ) (db : Db) where
    abbrev listed : SubscriptionPayment → Bool
    listed sp = sp.subscription_id == sub_id && any (is_pending_invoice sp.invoice_id) db.invoices

    pub pending-named :
        (j : Invoice)
        → In j db.invoices
        → j.status ≡ InvoiceStatus.pending
        → any (is_charge sub_id j.id) db.subscription_payments ≡ true
        → In j.id (pending_invoices sub_id db)
    unfolding pending_invoices
    pending-named j there waiting e =
        let (sp, m, fits) = any-row (is_charge sub_id j.id) db.subscription_payments e in
        let of_id : sp.invoice_id ≡ j.id = ground arith in
        let own : (sp.subscription_id == sub_id) ≡ true = ground arith in
        let hit : is_pending_invoice sp.invoice_id j ≡ true = ground arith in
        let found = any-In (is_pending_invoice sp.invoice_id) db.invoices j there hit in
        let chosen : listed sp ≡ true = rw (own, found) refl in
        subst (λ k. In k (pending_invoices sub_id db)) of_id
          (In-map (λ x. x.invoice_id) (select listed db.subscription_payments) sp
            (In-select listed db.subscription_payments sp m chosen))

    pub pending-unnamed :
        (j : Invoice)
        → any (is_charge sub_id j.id) db.subscription_payments ≡ false
        → All (λ k. j.id ≢ k) (pending_invoices sub_id db)
    unfolding pending_invoices
    pending-unnamed j e =
        All-selected (λ k. j.id ≢ k) (λ x. x.invoice_id) listed db.subscription_payments
          (All-map (λ x. is_charge sub_id j.id x ≡ false)
            (λ x. listed x ≡ true → j.id ≢ x.invoice_id) db.subscription_payments
            (λ x miss hit same. ground arith)
            (any-false (is_charge sub_id j.id) db.subscription_payments e))

    -- The row of an invoice after the cancellation of its subscription.
    abbrev pub after_cancel : Invoice → Invoice
    after_cancel j =
        if is_cancellable merchant_id db.payments j
          && any (is_charge sub_id j.id) db.subscription_payments
        then cancelled_row j
        else j

    pub each_row :
        IsConsistent db
        → All
            (λ j.
              In
                (after_cancel j)
                (cancel_each merchant_id (pending_invoices sub_id db) db).1.invoices)
            db.invoices
    each_row c =
        let ids = pending_invoices sub_id db in
        let out = (cancel_each merchant_id ids db).1 in
        All-by_rows (λ j. In (after_cancel j) out.invoices) db.invoices
          (λ j there. elim (Bool-cases (is_cancellable merchant_id db.payments j)) [
            | inr closed ↦ rw closed (loop_closed j ids db c there closed)
            | inl fits ↦ elim (Bool-cases (any (is_charge sub_id j.id) db.subscription_payments)) [
              | inr unnamed ↦
                  rw (fits, unnamed) (loop_other j ids db there (pending-unnamed j unnamed))
              | inl named ↦
                  let (own, waiting, unpaid) = cancellable_fields merchant_id db.payments j fits in
                  rw (fits, named)
                    (loop_cancels j ids db c there fits (pending-named j there waiting named))
            ]
          ])
