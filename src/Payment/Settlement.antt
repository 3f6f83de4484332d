-- ===== src/Payment/Settlement.antt =====
-- `_recalculate_invoice_status`: every status that it computes is reached, and is the one that the
-- confirmed payments call for.
use ghostbill.Prelude.{
  ℕ, ◌++◌, ◌⊎◌, ◌≤◌, ◌<◌, ◌≡◌, refl, ap, sym, subst, ◌∙◌, ◌≢◌, true, false, inl, inr, List, [], ◌∷◌,
  update_where, select, arith, ==_refl, some,
}
use ghostbill.Prelude.Keys.{update_where-twice}
use ghostbill.Model.{
  Invoice, InvoiceStatus, is_invoice_status, Db, Payment, Result, ok, invoice_has_id,
}
use ghostbill.Invoice.{can_transition, update_status, with_status}
use ghostbill.Invoice.Transitions.{is_invoice_status-eq, is_lapsed}
use ghostbill.Payment.{target_status, apply_transition, confirmed_sum}
use ghostbill.Payment.Service.{recalculate_invoice_status, notify_paid, report, settle}
use ghostbill.Payment.Hook.{PaymentHook}

-- What a status says about the confirmed sum and the amount of the invoice. A cancelled invoice
-- says nothing.
abbrev pub Settles : InvoiceStatus → ℕ → ℕ → Type 0
Settles InvoiceStatus.pending sum required = sum ≡ 0
Settles InvoiceStatus.partially_paid sum required = (0 < sum) × (sum < required)
Settles InvoiceStatus.paid sum required = sum ≡ required
Settles InvoiceStatus.overpaid sum required = required < sum
Settles InvoiceStatus.expired sum required = sum < required
Settles InvoiceStatus.late_paid sum required = required ≤ sum
Settles InvoiceStatus.cancelled sum required = Unit

-- For an amount above 0 the chosen status says the truth about the sum, whatever the status was
-- before.
pub target_status-Settles :
    (s : InvoiceStatus) (sum required : ℕ)
    → 0 < required
    → Settles (target_status s sum required) sum required
unfolding target_status
target_status-Settles s sum required positive = ground arith

-- The status that is chosen for an amount above 0 says the truth about the confirmed sum; it is never
-- cancelled; and it is expired or paid late just where the status before was one of these.
pub target_status_lem :
    (s : InvoiceStatus) (sum required : ℕ)
    → 0 < required
    → let t = target_status s sum required in
      Settles t sum required × (t ≢ InvoiceStatus.cancelled) × (is_lapsed t ≡ is_lapsed s)
unfolding target_status
target_status_lem s sum required positive = ground arith

-- For an amount above 0, a status other than cancelled that says the truth is left alone.
target_status-fixed :
    (s : InvoiceStatus) (sum required : ℕ)
    → 0 < required
    → s ≢ InvoiceStatus.cancelled
    → Settles s sum required
    → target_status s sum required ≡ s
unfolding target_status
target_status-fixed s sum required positive live h = ground arith

-- The invoice with another status and, perhaps, another time of payment.
pub record IsRestatus (old new : Invoice) : Type 0 where
  pub same_id : new.id ≡ old.id
  pub same_amount : new.amount_atomic ≡ old.amount_atomic
  pub same_merchant : new.merchant_id ≡ old.merchant_id

-- What a run that ends in `out` has done to an invoice: it has the target status now, in the row too,
-- and the tables that payments live in are as they were.
pub record Applied (invoice : Invoice) (target : InvoiceStatus) (db : Db)
    (out : Result Invoice × Db) : Type 0 where
  pub after : Invoice
  pub returned : out.0 ≡ ok after
  pub restatus : IsRestatus invoice after
  pub reached : after.status ≡ target
  pub written :
      ((after ≡ invoice) × (out.1.invoices ≡ db.invoices))
      ⊎ (out.1.invoices ≡ update_where (invoice_has_id invoice.id) (λ _. after) db.invoices)
  pub payments_kept : out.1.payments ≡ db.payments
  pub addresses_kept : out.1.addresses ≡ db.addresses
  pub next_id_grows : db.next_id ≤ out.1.next_id

-- The database after an allowed `update_status`.
abbrev updated : ℕ → Invoice → InvoiceStatus → Db → Db
updated now invoice target db = record db {
  invoices =
      update_where (invoice_has_id invoice.id) (λ _. with_status now invoice target) db.invoices;
  audit_log =
      db.audit_log
      ++ record {
        merchant_id = some invoice.merchant_id;
        action = "invoice.status_changed";
        entity_id = some invoice.id;
        exception = false;
      }
        ∷ [];
}

update_status-allowed :
    (now : ℕ) (invoice : Invoice) (target : InvoiceStatus) (db : Db)
    → is_invoice_status invoice.status target ≡ false
    → can_transition invoice.status target ≡ true
    → update_status now invoice target db
      ≡ (ok (with_status now invoice target), updated now invoice target db)
unfolding update_status
update_status-allowed now invoice target db other allowed = rw (other, allowed)

-- From each status but cancelled, the target that is computed there is the status itself, allowed,
-- or overpaid from pending, which is reached through paid.
routes :
    (s : InvoiceStatus) (sum required : ℕ)
    → s ≢ InvoiceStatus.cancelled
    → let t = target_status s sum required in
      (is_invoice_status s t ≡ true)
      ⊎ ((is_invoice_status s t ≡ false) × (can_transition s t ≡ true))
      ⊎ ((s ≡ InvoiceStatus.pending) × (t ≡ InvoiceStatus.overpaid))
unfolding target_status can_transition
routes s sum required live = ground arith

-- The three routes, taken one by one.
stays :
    (now : ℕ) (invoice : Invoice) (target : InvoiceStatus) (db : Db)
    → is_invoice_status invoice.status target ≡ true
    → Applied invoice target db (apply_transition now invoice target db)
unfolding apply_transition
stays now invoice target db same = rw same (record {
  after = invoice;
  returned = refl;
  restatus = record { same_id = refl; same_amount = refl; same_merchant = refl };
  reached = is_invoice_status-eq _ _ same;
  written = inl (refl, refl);
  payments_kept = refl;
  addresses_kept = refl;
  next_id_grows = omega arith;
})

moves :
    (now : ℕ) (invoice : Invoice) (target : InvoiceStatus) (db : Db)
    → is_invoice_status invoice.status target ≡ false
    → can_transition invoice.status target ≡ true
    → Applied invoice target db (apply_transition now invoice target db)
unfolding apply_transition with_status
moves now invoice target db other allowed =
    rw (other, allowed)
      (rw (update_status-allowed now invoice target db other allowed) (record {
        after = with_status now invoice target;
        returned = refl;
        restatus = record { same_id = refl; same_amount = refl; same_merchant = refl };
        reached = refl;
        written = inr refl;
        payments_kept = refl;
        addresses_kept = refl;
        next_id_grows = omega arith;
      }))

moves_twice :
    (now : ℕ) (invoice : Invoice) (db : Db)
    → invoice.status ≡ InvoiceStatus.pending
    → Applied invoice InvoiceStatus.overpaid db
        (apply_transition now invoice InvoiceStatus.overpaid db)
unfolding apply_transition update_status
moves_twice now invoice db from_pending =
    let i = record invoice { status = InvoiceStatus.pending } in
    let paid = with_status now i InvoiceStatus.paid in
    let over = with_status now paid InvoiceStatus.overpaid in
    subst
      (λ j. Applied j InvoiceStatus.overpaid db (apply_transition now j InvoiceStatus.overpaid db))
      (ap (λ s. record invoice { status = s }) (sym from_pending))
      (record {
        after = over;
        returned = refl;
        restatus = record { same_id = refl; same_amount = refl; same_merchant = refl };
        reached = refl;
        written = inr (
            update_where-twice (invoice_has_id invoice.id) paid over db.invoices
              (==_refl invoice.id));
        payments_kept = refl;
        addresses_kept = refl;
        next_id_grows = omega arith;
      })

-- From every status but cancelled the computed status is reached.
apply_transition-Applied :
    (now : ℕ) (invoice : Invoice) (sum : ℕ) (db : Db)
    → invoice.status ≢ InvoiceStatus.cancelled
    → let target = target_status invoice.status sum invoice.amount_atomic in
      Applied invoice target db (apply_transition now invoice target db)
apply_transition-Applied now invoice sum db live =
    let target = target_status invoice.status sum invoice.amount_atomic in
    elim (routes invoice.status sum invoice.amount_atomic live) [
      | inl same ↦ stays now invoice target db same
      | inr (inl (other, allowed)) ↦ moves now invoice target db other allowed
      | inr (inr (from_pending, to_overpaid)) ↦
          rw to_overpaid (moves_twice now invoice db from_pending)
    ]

is_invoice_status-ne : (s t : InvoiceStatus) → s ≢ t → is_invoice_status s t ≡ false
is_invoice_status-ne s t h = ground arith

-- What is asked of a table of invoices: the status of each says the truth about its payments.
abbrev pub Agrees : List Payment → Invoice → Type 0
Agrees payments i = Settles i.status (confirmed_sum i.id payments) i.amount_atomic

module _ (hook : PaymentHook) where
  -- The hook changes neither invoices nor payments nor addresses, and what it raises goes no further.
  report-keeps :
      (old : InvoiceStatus) (invoice : Invoice) (db : Db)
      → let out = report hook old invoice db in
        (out.0 ≡ ok invoice)
        × (out.1.invoices ≡ db.invoices)
        × (out.1.payments ≡ db.payments)
        × (out.1.addresses ≡ db.addresses)
        × (db.next_id ≤ out.1.next_id)
  unfolding report notify_paid
  report-keeps old invoice db = ground (
    arith,
    hook.keeps_invoices invoice.id db,
    hook.keeps_payments invoice.id db,
    hook.keeps_addresses invoice.id db,
    hook.next_id_grows invoice.id db,
  )

  report-Applied :
      {invoice : Invoice} {target : InvoiceStatus} {db : Db} (old : InvoiceStatus)
      (out : Result Invoice × Db) (a : Applied invoice target db out)
      → Applied invoice target db (report hook old a.after out.1)
  report-Applied old out a =
      let (returned, invoices, payments, addresses, next_id) = report-keeps old a.after out.1 in
      record {
        after = a.after;
        returned = returned;
        restatus = a.restatus;
        reached = a.reached;
        written = rw invoices a.written;
        payments_kept = payments ∙ a.payments_kept;
        addresses_kept = addresses ∙ a.addresses_kept;
        next_id_grows = omega (arith, next_id, a.next_id_grows);
      }

  pub recalculate-settle :
      (now : ℕ) (stale invoice : Invoice) (db : Db)
      → select (invoice_has_id stale.id) db.invoices ≡ invoice ∷ []
      → recalculate_invoice_status hook now stale db ≡ settle hook now invoice db
  unfolding recalculate_invoice_status
  recalculate-settle now stale invoice db found = ground (arith, found)

  settle-Applied :
      (now : ℕ) (invoice : Invoice) (db : Db)
      → is_invoice_status invoice.status InvoiceStatus.cancelled ≡ false
      → (a : Applied invoice
          (target_status invoice.status
            (confirmed_sum invoice.id db.payments)
            invoice.amount_atomic)
          db
          (apply_transition now invoice
            (target_status invoice.status
              (confirmed_sum invoice.id db.payments)
              invoice.amount_atomic)
            db))
      → settle hook now invoice db
        ≡ report hook invoice.status a.after
            (apply_transition now invoice
              (target_status invoice.status
                (confirmed_sum invoice.id db.payments)
                invoice.amount_atomic)
              db).1
  unfolding settle
  settle-Applied now invoice db live a = ground (arith, a.returned)

  -- An invoice that is there and not cancelled gets the status that its confirmed payments call for;
  -- payments, addresses and the other invoices stay as they are.
  pub recalculate-Applied :
      (now : ℕ) (stale invoice : Invoice) (db : Db)
      → select (invoice_has_id stale.id) db.invoices ≡ invoice ∷ []
      → invoice.status ≢ InvoiceStatus.cancelled
      → Applied invoice
          (target_status invoice.status
            (confirmed_sum invoice.id db.payments)
            invoice.amount_atomic)
          db
          (recalculate_invoice_status hook now stale db)
  recalculate-Applied now stale invoice db found live =
      let sum = confirmed_sum invoice.id db.payments in
      let a = apply_transition-Applied now invoice sum db live in
      let alive = is_invoice_status-ne invoice.status InvoiceStatus.cancelled live in
      rw (recalculate-settle now stale invoice db found, settle-Applied now invoice db alive a)
        (report-Applied invoice.status _ a)
