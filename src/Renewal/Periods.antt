-- ===== src/Renewal/Periods.antt =====
-- The periods that a renewal books: no period of a subscription is billed twice.
use ghostbill.Prelude.{
  ℕ, ◌≡◌, refl, subst, ◌∙◌, ◌⊎◌, inl, inr, Bool-cases, Option, none, some, [], ◌∷◌, ◌++◌, String,
  select, arith, is_some, ltb, not, ◌&&◌,
}
use ghostbill.Model.{
  database_error, Db, Merchant, Invoice, Subscription, SubscriptionPayment, Exec, Result, ok, Frame,
  Keeps, bind-Keeps, if-Keeps, pure-Keeps, read-Keeps, raise-Keeps, bind_run, put_subscription,
  add_audit, add_address, add_invoice, delete_invoice, uuid4, when, raise_if, gets, ◌>>=◌, ◌>>◌,
  scalar-none, scalar_one_or_none, InvoiceAddress, skip_renewal, skipped_idempotent, skipped_unpaid,
}
use ghostbill.Invoice.{create_invoice, attach_address, InvoiceRequest}
use ghostbill.Invoice.Wallet.{RpcReply, created, connection_error, rpc_error}
use ghostbill.Subscription.{apply_pending_changes, applied_is_valid}
use ghostbill.Renewal.{
  create_renewal_invoice_for, finish_renewal, is_period, log_renewal_event,
  add_subscription_payment, has_pending, renewal_request, unpaid_count,
}

-- The table of periods stays as it is.
abbrev same_periods : Frame
same_periods = record {
  rel = λ a b. b.subscription_payments ≡ a.subscription_payments;
  same = λ db. refl;
  after = λ h k. k ∙ h;
}

put_subscription-Same : (s : Subscription) → Keeps same_periods (put_subscription s)
put_subscription-Same s = record { run = λ db. refl }

add_audit-Same :
    (merchant_id : Option ℕ) (action : String) (entity_id : Option ℕ)
    → Keeps same_periods (add_audit merchant_id action entity_id)
add_audit-Same merchant_id action entity_id = record { run = λ db. refl }

add_invoice-Same : (i : Invoice) → Keeps same_periods (add_invoice i)
add_invoice-Same i = record { run = λ db. refl }

delete_invoice-Same : (k : ℕ) → Keeps same_periods (delete_invoice k)
delete_invoice-Same k = record { run = λ db. refl }

uuid4-Same : Keeps same_periods uuid4
uuid4-Same = record { run = λ db. refl }

log_renewal_event-Same :
    (subscription_id : ℕ) (result : String) (invoice_id : Option ℕ)
    → Keeps same_periods (log_renewal_event subscription_id result invoice_id)
unfolding log_renewal_event
log_renewal_event-Same subscription_id result invoice_id = record { run = λ db. refl }

add_address-Same : (a : InvoiceAddress) → Keeps same_periods (add_address a)
add_address-Same a = record { run = λ db. ground arith }

ruleset same = (
  bind-Keeps, if-Keeps, pure-Keeps, read-Keeps, raise-Keeps, put_subscription-Same, add_audit-Same,
  add_invoice-Same, delete_invoice-Same, uuid4-Same, log_renewal_event-Same, add_address-Same,
)

attach_address-Same : (i : Invoice) (reply : RpcReply) → Keeps same_periods (attach_address i reply)
unfolding attach_address
attach_address-Same i connection_error = search same
attach_address-Same i rpc_error = search same
attach_address-Same i (created subaddress index) = search same

create_invoice-Same :
    (wallet : ℕ → RpcReply) (now : ℕ) (merchant : Merchant) (request : InvoiceRequest)
    → Keeps same_periods (create_invoice wallet now merchant request)
unfolding create_invoice
create_invoice-Same wallet now merchant request = search (attach_address-Same, same) depth 12

-- Nothing is booked, or one period of this subscription from this start.
abbrev pub Books : ℕ → ℕ → Db → Db → Type 0
Books subscription_id start a b =
    (b.subscription_payments ≡ a.subscription_payments)
    ⊎ ((sp : SubscriptionPayment) × (b.subscription_payments ≡ a.subscription_payments ++ sp ∷ [])
        × (sp.subscription_id ≡ subscription_id)
        × (sp.period_start ≡ start))

pub record MayBook (subscription_id start : ℕ) {A : Type 0} (m : Exec A) : Type 0 where
  pub run : (db : Db) → Books subscription_id start db (m db).1

bind-MayBook :
    {id start : ℕ} {A B : Type 0} {m : Exec A} {f : A → Exec B}
    → Keeps same_periods m
    → ((a : A) → MayBook id start (f a))
    → MayBook id start (m >>= f)
bind-MayBook {id} {start} {m = m} {f = f} first rest = record {
  run = λ db.
      bind_run (λ out. Books id start db out.1) m f db (λ e failed. inl (first.run db))
        (λ a passed.
          subst
            (λ rows.
              ((f a (m db).1).1.subscription_payments ≡ rows)
              ⊎ ((sp : SubscriptionPayment) × ((f a (m db).1).1.subscription_payments
                    ≡ rows ++ sp ∷ [])
                  × (sp.subscription_id ≡ id)
                  × (sp.period_start ≡ start)))
            (first.run db) ((rest a).run (m db).1));
}

finish_renewal-MayBook :
    (now : ℕ) (sub : Subscription) (id start : ℕ) (invoice : Invoice)
    → sub.id ≡ id
    → MayBook id start (finish_renewal now sub start invoice)
unfolding finish_renewal add_subscription_payment log_renewal_event
finish_renewal-MayBook now sub id start invoice same_id = record {
  run = λ db. inr (_, refl, same_id, refl);
}

module _ (wallet : ℕ → RpcReply) (now : ℕ) (sub : Subscription) (merchant : Merchant) where
  -- The part after the two guards.
  abbrev pub bill : Exec (Invoice × SubscriptionPayment)
  bill =
      raise_if (has_pending sub && not (applied_is_valid sub)) database_error
      >> (put_subscription (apply_pending_changes sub)
          >> (when (has_pending sub) (log_renewal_event sub.id "pending_applied" none)
              >> (create_invoice wallet now merchant (renewal_request (apply_pending_changes sub))
                  >>= finish_renewal now (apply_pending_changes sub) sub.next_due_at)))

  same_id : (apply_pending_changes sub).id ≡ sub.id
  unfolding apply_pending_changes
  same_id = refl

  pub bill-MayBook : MayBook sub.id sub.next_due_at bill
  bill-MayBook =
      search (bind-MayBook, same, create_invoice-Same, finish_renewal-MayBook, same_id) depth 12

  abbrev pub query : Db → Result (Option SubscriptionPayment)
  query db = scalar_one_or_none (select (is_period sub.id sub.next_due_at) db.subscription_payments)

  abbrev pub guarded : Option SubscriptionPayment → Exec (Invoice × SubscriptionPayment)
  guarded existing =
      raise_if (is_some existing) (skip_renewal skipped_idempotent)
      >> (gets (unpaid_count sub.id) >>= λ unpaid.
          raise_if (ltb 0 unpaid) (skip_renewal skipped_unpaid) >> bill)

  -- What the guards let through.
  abbrev Outcomes : Db → Result (Invoice × SubscriptionPayment) × Db → Type 0
  Outcomes db out =
      (out.1 ≡ db)
      ⊎ ((out ≡ bill db)
          × (select (is_period sub.id sub.next_due_at) db.subscription_payments ≡ [])
          × (unpaid_count sub.id db ≡ 0))

  guarded-Outcomes :
      (db : Db) (existing : Option SubscriptionPayment)
      → query db ≡ ok existing
      → Outcomes db (guarded existing db)
  guarded-Outcomes db (some sp) there = inl refl
  guarded-Outcomes db none absent = elim (Bool-cases (ltb 0 (unpaid_count sub.id db))) [
    | inl unpaid ↦ inl (rw unpaid refl)
    | inr clear ↦ inr (rw clear refl, scalar-none _ absent, ground arith)
  ]

  pub renewal-Outcomes :
      (db : Db) → Outcomes db (create_renewal_invoice_for wallet now sub merchant db)
  unfolding create_renewal_invoice_for
  renewal-Outcomes db =
      bind_run (Outcomes db) (λ d. (query d, d)) guarded db (λ e failed. inl refl)
        (λ existing passed. guarded-Outcomes db existing passed)
