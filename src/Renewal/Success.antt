-- ===== src/Renewal/Success.antt =====
-- What a renewal books when the wallet answers.
use ghostbill.Prelude.{
  ℕ, ◌+◌, ◌*◌, ◌≤◌, ◌<◌, true, ◌≡◌, refl, sym, subst, ap, ◌∙◌, inl, inr, false, Bool-cases, none,
  some, [], ◌∷◌, ◌++◌, List, select, any, update_where, arith, get_or, ==_refl,
}
use ghostbill.Prelude.Keys.{update_where-twice}
use ghostbill.Model.{
  Db, Merchant, Invoice, InvoiceAddress, Subscription, SubscriptionPayment,
  SubscriptionRenewalEvent, Result, ok, bind-ok, days, same_address, subscription_has_id, ◌>>=◌,
  put_subscription, Exec, Decimal, fits_columns,
}
use ghostbill.Invoice.{create_invoice, draft_invoice, attach_address}
use ghostbill.Invoice.Wallet.{RpcReply, created}
use ghostbill.Subscription.{apply_pending_changes, applied_is_valid, calculate_next_due}
use ghostbill.Subscription.Schedule.{calculate_next_due_lem}
use ghostbill.Money.{parse_amount_xmr}
use ghostbill.Gateway.Create.{create_drafted, with_draft, draft_invoice-IsDraft}
use ghostbill.Renewal.{
  create_renewal_invoice_for, finish_renewal, is_period, unpaid_count, renewal_request,
  add_subscription_payment, log_renewal_event, has_pending,
}
use ghostbill.Renewal.Periods.{query, guarded}

-- The subscription after a renewal.
pub record Renews (now : ℕ) (old s : Subscription) : Type 0 where
  pub amount_kept :
      old.pending_amount_atomic ≡ none
      → (s.amount_atomic ≡ old.amount_atomic) × (s.amount_xmr ≡ old.amount_xmr)
  pub amount_taken :
      (a : ℕ) (x : Decimal)
      → old.pending_amount_atomic ≡ some a
      → old.pending_amount_xmr ≡ some x
      → (s.amount_atomic ≡ a) × (s.amount_xmr ≡ x)
  pub interval : s.interval_days ≡ get_or old.pending_interval_days old.interval_days
  pub soft : s.grace_days_soft ≡ get_or old.pending_grace_soft old.grace_days_soft
  pub hard : s.grace_days_hard ≡ get_or old.pending_grace_hard old.grace_days_hard
  pub amount_done : (s.pending_amount_atomic ≡ none) × (s.pending_amount_xmr ≡ none)
  pub interval_done : s.pending_interval_days ≡ none
  pub grace_done : (s.pending_grace_soft ≡ none) × (s.pending_grace_hard ≡ none)
  pub due :
      (k : ℕ) × (1 ≤ k)
      × (s.next_due_at ≡ old.billing_anchor_at + k * days s.interval_days)
      × (now ≤ s.next_due_at)
      × (old.billing_anchor_at < now → s.next_due_at < now + days s.interval_days)

module _ (wallet : ℕ → RpcReply) (now : ℕ) (sub : Subscription) (merchant : Merchant) (db : Db)
    (i : Invoice) (address index : ℕ)
    (drafted : draft_invoice now merchant (renewal_request (apply_pending_changes sub)) db.next_id
      ≡ ok i)
    (fits : fits_columns i ≡ true) (answered : wallet i.id ≡ created address index)
    (free : any
        (same_address (record {
          invoice_id = i.id;
          address = address;
          address_index = index;
          account_index = 0;
        }))
        db.addresses
      ≡ false) where
  -- The row after a renewal.
  abbrev pub renewed : Subscription
  unfolding apply_pending_changes
  renewed = record (apply_pending_changes sub) {
    next_due_at =
        calculate_next_due sub.billing_anchor_at
          (get_or sub.pending_interval_days sub.interval_days) now;
  }

  abbrev tail : Exec (Invoice × SubscriptionPayment)
  tail =
      create_invoice wallet now merchant (renewal_request (apply_pending_changes sub))
      >>= finish_renewal now (apply_pending_changes sub) sub.next_due_at

  abbrev pub Booked : Result (Invoice × SubscriptionPayment) × Db → Type 0
  Booked out =
      (sp : SubscriptionPayment) × (out.0 ≡ ok (i, sp))
      × (sp.invoice_id ≡ i.id)
      × (sp.subscription_id ≡ sub.id)
      × (sp.period_start ≡ sub.next_due_at)
      × (sp.period_end
          ≡ sub.next_due_at + days (get_or sub.pending_interval_days sub.interval_days))
      × (out.1.subscription_payments ≡ db.subscription_payments ++ sp ∷ [])
      × (out.1.invoices ≡ db.invoices ++ i ∷ [])
      × (after : Subscription) × Renews now sub after
      × (parse_amount_xmr (some after.amount_xmr) ≡ ok i.amount_xmr)
      × (out.1.subscriptions
          ≡ update_where (subscription_has_id sub.id) (λ _. after) db.subscriptions)

  abbrev its_address : InvoiceAddress
  its_address = record {
    invoice_id = i.id;
    address = address;
    address_index = index;
    account_index = 0;
  }

  abbrev attached_db : Db → Db
  attached_db start = record (with_draft start i) {
    addresses = start.addresses ++ its_address ∷ [];
    audit_log =
        start.audit_log
        ++ record {
          merchant_id = some i.merchant_id;
          action = "invoice.created";
          entity_id = some i.id;
          exception = false;
        }
          ∷ [];
  }

  attached :
      (start : Db)
      → any (same_address its_address) start.addresses ≡ false
      → attach_address i (wallet i.id) (with_draft start i) ≡ (ok i, attached_db start)
  unfolding attach_address
  attached start unused = ground (arith, answered, unused)

  renewed-Renews :
      applied_is_valid sub ≡ true
      → ((sub.pending_amount_atomic ≡ none) → (sub.pending_amount_xmr ≡ none))
      → Renews now sub renewed
  unfolding applied_is_valid apply_pending_changes
  renewed-Renews valid paired =
      let interval = get_or sub.pending_interval_days sub.interval_days in
      let positive : 0 < interval = ground arith in
      record {
        amount_kept = λ none_waits. ground arith;
        amount_taken = λ a x waits in_xmr. ground arith;
        interval = refl;
        soft = refl;
        hard = refl;
        amount_done = (refl, ground (arith, paired));
        interval_done = refl;
        grace_done = (refl, refl);
        due = calculate_next_due_lem sub.billing_anchor_at interval now positive;
      }

  billed : parse_amount_xmr (some renewed.amount_xmr) ≡ ok i.amount_xmr
  unfolding renewal_request renewed apply_pending_changes
  billed =
      (draft_invoice-IsDraft now merchant (renewal_request (apply_pending_changes sub)) db.next_id i
        drafted).parsed

  -- With any events, and the pending changes written.
  tail-Booked :
      applied_is_valid sub ≡ true
      → ((sub.pending_amount_atomic ≡ none) → (sub.pending_amount_xmr ≡ none))
      → (events : List SubscriptionRenewalEvent)
      → Booked (
          tail (record (put_subscription (apply_pending_changes sub) db).1 {
            renewal_events = events;
          }))
  unfolding finish_renewal add_subscription_payment log_renewal_event apply_pending_changes
      attach_address
  tail-Booked valid paired events =
      let start = record (put_subscription (apply_pending_changes sub) db).1 {
        renewal_events = events;
      } in
      let request = renewal_request (apply_pending_changes sub) in
      let finish = finish_renewal now (apply_pending_changes sub) sub.next_due_at in
      let made = create_drafted wallet now merchant request start i drafted fits in
      let e =
        bind-ok (create_invoice wallet now merchant request) finish start
          (made ∙ attached start free) in
      (
        _,
        ap (λ out. out.0) e,
        refl,
        refl,
        refl,
        refl,
        ap (λ out. out.1.subscription_payments) e,
        ap (λ out. out.1.invoices) e,
        renewed,
        renewed-Renews valid paired,
        billed,
        ap (λ out. out.1.subscriptions) e
            ∙ update_where-twice (subscription_has_id sub.id) (apply_pending_changes sub) renewed
                db.subscriptions (==_refl sub.id),
      )

  -- A subscription that is due for a period that is not booked, with no open invoice, a request that
  -- passes the validation and fits the columns, and a wallet that answers with a new subaddress: the
  -- invoice is stored, for the waiting amount if there is one, and one period from the due date on is
  -- booked for it, with the interval that was waiting. The row of the subscription has the waiting
  -- amounts, interval and grace periods, with none waiting any more, and is due a whole number of
  -- intervals after its anchor, at least one, not before now and less than one interval from now if the
  -- anchor is past. The waiting terms keep the constraints of the table, and an amount waits in both units
  -- or in none.
  pub create_renewal_invoice_books :
      applied_is_valid sub ≡ true
      → ((sub.pending_amount_atomic ≡ none) → (sub.pending_amount_xmr ≡ none))
      → select (is_period sub.id sub.next_due_at) db.subscription_payments ≡ []
      → unpaid_count sub.id db ≡ 0
      → Booked (create_renewal_invoice_for wallet now sub merchant db)
  unfolding create_renewal_invoice_for
  create_renewal_invoice_books valid paired fresh clear =
      let absent : (query wallet now sub merchant db, db) ≡ (ok none, db) = rw fresh refl in
      let passed =
        bind-ok (λ d. (query wallet now sub merchant d, d)) (guarded wallet now sub merchant) db
          {a = none} {db' = db} absent in
      let start = (put_subscription (apply_pending_changes sub) db).1 in
      elim (Bool-cases (has_pending sub)) [
        | inl waiting ↦
            let logged = (log_renewal_event sub.id "pending_applied" none start).1.renewal_events in
            let step : guarded wallet now sub merchant none db
                ≡ tail (record start { renewal_events = logged }) =
              rw (clear, waiting, valid) refl in
            subst Booked (sym (passed ∙ step)) (tail-Booked valid paired logged)
        | inr settled ↦
            let step : guarded wallet now sub merchant none db ≡ tail start =
              rw (clear, settled) refl in
            subst Booked (sym (passed ∙ step)) (tail-Booked valid paired db.renewal_events)
      ]
