-- ===== src/Invoice/Transitions.antt =====
-- The state machine of an invoice: `update_status`, and what a chain of its transitions can reach.
use ghostbill.Prelude.{
  ℕ, ◌≡◌, refl, ap, Bool-cases, ◌⊎◌, inl, inr, Bool, true, false, arith, update_where,
}
use ghostbill.Model.{
  InvoiceStatus, is_invoice_status, Db, Invoice, ok, err, invoice_state, invoice_has_id,
}
use ghostbill.Invoice.{can_transition, update_status, with_status}

-- A chain of transitions that `can_transition` allows.
infix 40 ◌⟶*◌
pub data ◌⟶*◌ (s : InvoiceStatus) : InvoiceStatus → Type 0 where
  here : s ⟶* s
  then : {t u : InvoiceStatus} → s ⟶* t → can_transition t u ≡ true → s ⟶* u

-- The states of an invoice whose time ran out.
abbrev pub is_lapsed : InvoiceStatus → Bool
is_lapsed InvoiceStatus.expired = true
is_lapsed InvoiceStatus.late_paid = true
is_lapsed _ = false

lapsed_step :
    (s t : InvoiceStatus) → is_lapsed s ≡ true → can_transition s t ≡ true → is_lapsed t ≡ true
unfolding can_transition
lapsed_step s t h e = ground arith

-- An invoice that has expired is only ever expired or paid late: it never becomes pending, paid,
-- overpaid, partially paid or cancelled again.
lapsed_stays : {s t : InvoiceStatus} → is_lapsed s ≡ true → s ⟶* t → is_lapsed t ≡ true
lapsed_stays h here = h
lapsed_stays h (then {t} {u} chain step) = lapsed_step t u (lapsed_stays h chain) step

cancelled_step : (t : InvoiceStatus) → can_transition InvoiceStatus.cancelled t ≡ false
unfolding can_transition
cancelled_step t = refl

cancelled_stays :
    {s t : InvoiceStatus} → s ⟶* t → s ≡ InvoiceStatus.cancelled → t ≡ InvoiceStatus.cancelled
cancelled_stays here e = e
cancelled_stays (then {t} {u} chain step) e =
    cc (ap (λ x. can_transition x u) (cancelled_stays chain e), cancelled_step u, step)

only_pending_cancelled :
    (s : InvoiceStatus)
    → can_transition s InvoiceStatus.cancelled ≡ true
    → s ≡ InvoiceStatus.pending
unfolding can_transition
only_pending_cancelled s h = ground arith

-- After any chain of allowed transitions a cancelled invoice is still cancelled, and the only status
-- from which a step to cancelled is allowed is pending.
cancelled_terminal :
    {s t : InvoiceStatus}
    → s ⟶* t
    → (s ≡ InvoiceStatus.cancelled → t ≡ InvoiceStatus.cancelled)
      × (can_transition s InvoiceStatus.cancelled ≡ true → s ≡ InvoiceStatus.pending)
unfolding can_transition
cancelled_terminal {s} {t} c = (λ e. cancelled_stays c e, only_pending_cancelled s)

pub is_invoice_status-eq : (s t : InvoiceStatus) → is_invoice_status s t ≡ true → s ≡ t
is_invoice_status-eq s t h = ground arith

-- The three outcomes of `update_status`: the invoice has the status already and nothing happens; the
-- transition is allowed, the row of the invoice gets the status and the payments stay; or it is
-- refused and the database stays as it was.
update_status_lem :
    (now : ℕ) (invoice : Invoice) (target : InvoiceStatus) (db : Db)
    → ((invoice.status ≡ target) × (update_status now invoice target db ≡ (ok invoice, db)))
      ⊎ ((can_transition invoice.status target ≡ true)
          × ((update_status now invoice target db).0 ≡ ok (with_status now invoice target))
          × ((update_status now invoice target db).1.invoices
              ≡ update_where
                  (invoice_has_id invoice.id)
                  (λ _. with_status now invoice target)
                  db.invoices)
          × ((update_status now invoice target db).1.payments ≡ db.payments))
      ⊎ ((can_transition invoice.status target ≡ false)
          × (update_status now invoice target db ≡ (err invoice_state, db)))
unfolding update_status
update_status_lem now invoice target db =
    elim (Bool-cases (is_invoice_status invoice.status target)) [
      | inl same ↦ inl (is_invoice_status-eq _ _ same, rw same)
      | inr other ↦ elim (Bool-cases (can_transition invoice.status target)) [
        | inl allowed ↦
            inr (inl (allowed, rw (other, allowed), rw (other, allowed), rw (other, allowed)))
        | inr refused ↦ inr (inr (refused, rw (other, refused)))
      ]
    ]
