-- ===== src/Prepayment/Fulfilment.antt =====
-- What the payment of a prepay invoice books, and that it books it once.
use native.Mathlib.Nat.{add-mul}
use ghostbill.Prelude.{
  ℕ, zero, suc, ◌+◌, ◌*◌, ◌<◌, ◌≡◌, ◌≢◌, refl, sym, ap, subst, ◌∙◌, Bool, true, false, Bool-cases,
  ◌⊎◌, inl, inr, ==_refl, none, some, List, [], ◌∷◌, ◌++◌, All, length, select, update_where, arith,
  ltb, ltb→lt, get_or, is_id,
}
use ghostbill.Model.{
  Db, Subscription, SubscriptionStatus, SubscriptionPayment, Invoice, Exec, pure, put_subscription,
  ◌>>◌, days, Result, ok, bind-ok, subscription_has_id, add_audit,
}
use ghostbill.Renewal.{log_renewal_event, add_subscription_payment}
use ghostbill.Prepayment.{
  handle_prepay_payment, fulfil, fulfilled, add_periods, clear_prepay_invoice, pays_invoice,
  meta_of,
}

-- The periods follow one another without a gap, from `a` to `b`, and each is `interval` long.
abbrev pub Tiles : ℕ → ℕ → ℕ → List SubscriptionPayment → Type 0
Tiles interval a b [] = a ≡ b
Tiles interval a b (sp ∷ sps) =
    (sp.period_start ≡ a) × (sp.period_end ≡ a + interval) × Tiles interval (a + interval) b sps

-- The rows of one subscription and one invoice.
abbrev pub BelongsTo : ℕ → ℕ → SubscriptionPayment → Type 0
BelongsTo subscription_id invoice_id sp =
    (sp.subscription_id ≡ subscription_id) × (sp.invoice_id ≡ invoice_id)

-- The rows of the `for` loop.
abbrev period_rows : Subscription → ℕ → ℕ → ℕ → ℕ → List SubscriptionPayment
period_rows sub invoice_id id i zero = []
period_rows sub invoice_id id i (suc count) =
    record {
      id = id;
      subscription_id = sub.id;
      invoice_id = invoice_id;
      period_start = sub.next_due_at + days (i * sub.interval_days);
      period_end = sub.next_due_at + days ((i + 1) * sub.interval_days);
    }
    ∷ period_rows sub invoice_id (suc id) (i + 1) count

append_assoc :
    {A : Type 0} (xs : List A) (y : A) (ys : List A) → (xs ++ y ∷ []) ++ ys ≡ xs ++ y ∷ ys
append_assoc [] y ys = refl
append_assoc (x ∷ xs) y ys = cc (append_assoc xs y ys)

abbrev with_rows : Db → ℕ → List SubscriptionPayment → Db
with_rows db n new = record db {
  next_id = n;
  subscription_payments = db.subscription_payments ++ new;
}

append_nil : {A : Type 0} (xs : List A) → xs ++ [] ≡ xs
append_nil [] = refl
append_nil (x ∷ xs) = cc (append_nil xs)

add_periods_lem :
    (sub : Subscription) (invoice_id i count : ℕ) (db : Db)
    → add_periods sub invoice_id i count db
      ≡ (ok tt, with_rows db (db.next_id + count) (period_rows sub invoice_id db.next_id i count))
unfolding add_periods add_subscription_payment
add_periods_lem sub invoice_id i zero db =
    let same : db.next_id + 0 ≡ db.next_id = omega arith in
    rw (append_nil db.subscription_payments, same) refl
add_periods_lem sub invoice_id i (suc count) db =
    let one =
      (add_subscription_payment sub.id invoice_id (sub.next_due_at + days (i * sub.interval_days))
        (sub.next_due_at + days ((i + 1) * sub.interval_days)) db).1 in
    let first_row : SubscriptionPayment = record {
      id = db.next_id;
      subscription_id = sub.id;
      invoice_id = invoice_id;
      period_start = sub.next_due_at + days (i * sub.interval_days);
      period_end = sub.next_due_at + days ((i + 1) * sub.interval_days);
    } in
    let rest = add_periods_lem sub invoice_id (i + 1) count one in
    let ids : suc db.next_id + count ≡ db.next_id + suc count = omega arith in
    let rows =
      append_assoc db.subscription_payments first_row
        (period_rows sub invoice_id (suc db.next_id) (i + 1) count) in
    rest ∙ rw (ids, rows) refl

module _ (sub : Subscription) (invoice_id : ℕ) where
  period_rows-length : (id i count : ℕ) → length (period_rows sub invoice_id id i count) ≡ count
  period_rows-length id i zero = refl
  period_rows-length id i (suc count) = ap suc (period_rows-length (suc id) (i + 1) count)

  period_rows-BelongsTo :
      (id i count : ℕ) → All (BelongsTo sub.id invoice_id) (period_rows sub invoice_id id i count)
  period_rows-BelongsTo id i zero = tt
  period_rows-BelongsTo id i (suc count) =
      ((refl, refl), period_rows-BelongsTo (suc id) (i + 1) count)

  period_rows-Tiles :
      (id i count a : ℕ)
      → a ≡ sub.next_due_at + days (i * sub.interval_days)
      → Tiles
          (days sub.interval_days)
          a
          (sub.next_due_at + days ((i + count) * sub.interval_days))
          (period_rows sub invoice_id id i count)
  period_rows-Tiles id i zero a start = start ∙ omega arith
  period_rows-Tiles id i (suc count) a start =
      let n = sub.interval_days in
      let end = add-mul i 1 n in
      let total : (i + 1) + count ≡ i + suc count = omega arith in
      (
        sym start,
        omega (arith, start, end),
        subst
            (λ k.
              Tiles (days n) (a + days n) (sub.next_due_at + days (k * n))
                (period_rows sub invoice_id (suc id) (i + 1) count))
            total
            (period_rows-Tiles (suc id) (i + 1) count (a + days n) (omega (arith, start, end))),
      )

select-hit :
    {A : Type 0} (p : A → Bool) (xs ys : List A) (y : A)
    → p y ≡ true
    → 0 < length (select p (xs ++ y ∷ ys))
select-hit p [] ys y h = rw h (omega arith)
select-hit p (x ∷ xs) ys y h =
    let rest = select-hit p xs ys y h in
    elim (Bool-cases (p x)) [ inl e ↦ rw e (omega arith) | inr e ↦ rw e rest ]

List-cases : {A : Type 0} (xs : List A) → (xs ≡ []) ⊎ ((y : A) × ((ys : List A) × (xs ≡ y ∷ ys)))
List-cases [] = inl refl
List-cases (x ∷ xs) = inr (x, (xs, refl))

select-empty :
    {A : Type 0} (p : A → Bool) (xs : List A)
    → ltb 0 (length (select p xs)) ≡ false
    → select p xs ≡ []
select-empty p xs h = elim (List-cases (select p xs)) [
  | inl e ↦ e
  | inr (y, (ys, e)) ↦ absurd (ground (arith, e))
]

period_rows-hit :
    (sub : Subscription) (invoice_id id i count : ℕ) (xs : List SubscriptionPayment)
    → 0 < count
    → 0 < length (select (pays_invoice invoice_id) (xs ++ period_rows sub invoice_id id i count))
period_rows-hit sub invoice_id id i zero xs h = absurd (omega arith)
period_rows-hit sub invoice_id id i (suc count) xs h =
    select-hit (pays_invoice invoice_id) xs (period_rows sub invoice_id (suc id) (i + 1) count) _
      (==_refl invoice_id)

module _ (invoice : Invoice) (sub : Subscription) (db : Db) where
  abbrev booked_periods : ℕ
  booked_periods = get_or (meta_of invoice).periods 1

  abbrev booked_rows : List SubscriptionPayment
  booked_rows = period_rows sub invoice.id db.next_id 0 booked_periods

  abbrev book : Exec Subscription
  unfolding fulfilled log_renewal_event
  book =
      put_subscription (fulfilled booked_periods sub)
      >> (add_audit (some sub.merchant_id) "subscription.prepay_fulfilled" (some sub.id)
          >> (log_renewal_event sub.id "prepay_fulfilled" (some invoice.id)
              >> pure (fulfilled booked_periods sub)))

  abbrev rows_added : Db
  rows_added = with_rows db (db.next_id + booked_periods) booked_rows

  booked :
      select (pays_invoice invoice.id) db.subscription_payments ≡ []
      → handle_prepay_payment invoice sub db
        ≡ (ok (fulfilled booked_periods sub), (book rows_added).1)
  unfolding handle_prepay_payment fulfil
  booked fresh =
      let chosen : handle_prepay_payment invoice sub db
          ≡ (add_periods sub invoice.id 0 booked_periods >> book) db =
        rw fresh refl in
      chosen
      ∙ bind-ok (add_periods sub invoice.id 0 booked_periods) (λ _. book) db
          (add_periods_lem sub invoice.id 0 booked_periods db)

  status_after :
      let after = fulfilled booked_periods sub in
      (sub.status ≡ SubscriptionStatus.past_due → after.status ≡ SubscriptionStatus.active)
      × (sub.status ≢ SubscriptionStatus.past_due → after.status ≡ sub.status)
  unfolding fulfilled
  status_after = ground arith

  -- A prepay invoice that is paid and has no period yet: its number of periods, 1 where it has none, is
  -- booked from the due date on, one after the other without a gap, each for this subscription and this
  -- invoice, up to the new due date; the subscription is paid until then, waits for no prepay invoice any
  -- more, is active if it was past due and else has the status that it had.
  pub handle_prepay_payment_books :
      select (pays_invoice invoice.id) db.subscription_payments ≡ []
      → let out = handle_prepay_payment invoice sub db in
        (after : Subscription) × (new : List SubscriptionPayment) × (out.0 ≡ ok after)
        × (after.next_due_at ≡ sub.next_due_at + days (booked_periods * sub.interval_days))
        × (after.prepaid_until ≡ some after.next_due_at)
        × (after.prepay_invoice_id ≡ none)
        × ((sub.status ≡ SubscriptionStatus.past_due → after.status ≡ SubscriptionStatus.active)
            × (sub.status ≢ SubscriptionStatus.past_due → after.status ≡ sub.status))
        × (out.1.subscriptions
            ≡ update_where (subscription_has_id sub.id) (λ _. after) db.subscriptions)
        × (out.1.subscription_payments ≡ db.subscription_payments ++ new)
        × (length new ≡ booked_periods)
        × All (BelongsTo sub.id invoice.id) new
        × Tiles (days sub.interval_days) sub.next_due_at after.next_due_at new
  unfolding fulfilled log_renewal_event
  handle_prepay_payment_books fresh =
      let e = booked fresh in
      let all : 0 + booked_periods ≡ booked_periods = omega arith in
      (
        fulfilled booked_periods sub,
        booked_rows,
        ap (λ out. out.0) e,
        refl,
        refl,
        refl,
        status_after,
        ap (λ out. out.1.subscriptions) e,
        ap (λ out. out.1.subscription_payments) e,
        period_rows-length sub invoice.id db.next_id 0 booked_periods,
        period_rows-BelongsTo sub invoice.id db.next_id 0 booked_periods,
        subst
            (λ k.
              Tiles (days sub.interval_days) sub.next_due_at
                (sub.next_due_at + days (k * sub.interval_days)) booked_rows)
            all
            (period_rows-Tiles sub invoice.id db.next_id 0 booked_periods sub.next_due_at
              (omega arith)),
      )

  -- The hook called again for an invoice that has its periods, with a subscription that waits for no
  -- invoice or for another one, does nothing.
  settled :
      (after : Subscription) (later : Db)
      → 0 < length (select (pays_invoice invoice.id) later.subscription_payments)
      → is_id after.prepay_invoice_id invoice.id ≡ false
      → handle_prepay_payment invoice after later ≡ (ok after, later)
  unfolding handle_prepay_payment clear_prepay_invoice
  settled after later found other = ground (arith, found, other)

  twice_new :
      select (pays_invoice invoice.id) db.subscription_payments ≡ []
      → 0 < booked_periods
      → handle_prepay_payment invoice (fulfilled booked_periods sub) (book rows_added).1
        ≡ (ok (fulfilled booked_periods sub), (book rows_added).1)
  unfolding fulfilled book
  twice_new fresh some_periods =
      settled (fulfilled booked_periods sub) (book rows_added).1
        (period_rows-hit sub invoice.id db.next_id 0 booked_periods db.subscription_payments
          some_periods)
        refl

  abbrev Repeats : Result Subscription × Db → Type 0
  Repeats out =
      (after : Subscription) × (out.0 ≡ ok after)
      × (handle_prepay_payment invoice after out.1 ≡ (ok after, out.1))

  twice_old :
      0 < length (select (pays_invoice invoice.id) db.subscription_payments)
      → Repeats (handle_prepay_payment invoice sub db)
  unfolding handle_prepay_payment clear_prepay_invoice
  twice_old found = elim (Bool-cases (is_id sub.prepay_invoice_id invoice.id)) [
    | inl mine ↦
        let cleared = record sub { prepay_invoice_id = none } in
        let e : handle_prepay_payment invoice sub db
            ≡ (ok cleared, (put_subscription cleared db).1) =
          ground (arith, found, mine) in
        subst Repeats (sym e)
          (cleared, refl, settled cleared (put_subscription cleared db).1 found refl)
    | inr other ↦
        subst Repeats (sym (settled sub db found other)) (sub, refl, settled sub db found other)
  ]

  -- A prepay invoice of at least one period whose payment is announced twice is booked once: the second
  -- call changes nothing at all.
  pub handle_prepay_payment_repeats :
      0 < booked_periods
      → (after : Subscription) × ((handle_prepay_payment invoice sub db).0 ≡ ok after)
        × (handle_prepay_payment invoice after (handle_prepay_payment invoice sub db).1
            ≡ (ok after, (handle_prepay_payment invoice sub db).1))
  handle_prepay_payment_repeats some_periods =
      elim (Bool-cases
        (ltb 0 (length (select (pays_invoice invoice.id) db.subscription_payments)))) [
          | inl found ↦ twice_old (ltb→lt _ _ found)
          | inr absent ↦
              let fresh = select-empty (pays_invoice invoice.id) db.subscription_payments absent in
              subst Repeats (sym (booked fresh))
                (fulfilled booked_periods sub, refl, twice_new fresh some_periods)
        ]
