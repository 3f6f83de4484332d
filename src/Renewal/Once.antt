-- ===== src/Renewal/Once.antt =====
-- Renewals and the periods that are booked already.
use ghostbill.Prelude.{
  ℕ, suc, ◌≤◌, ◌≡◌, refl, sym, ap, subst, ◌⊎◌, inl, inr, Bool, true, Bool-cases, List, [], ◌∷◌,
  ◌++◌, length, select, arith,
}
use ghostbill.Model.{Db, Merchant, Subscription, SubscriptionPayment}
use ghostbill.Invoice.Wallet.{RpcReply}
use ghostbill.Renewal.{create_renewal_invoice_for, is_period, unpaid_count}
use ghostbill.Renewal.Periods.{renewal-Outcomes, bill-MayBook, Books}

-- Every period of every subscription stands at most once.
abbrev pub IsOnce : Db → Type 0
IsOnce db = (id start : ℕ) → length (select (is_period id start) db.subscription_payments) ≤ 1

select-append_one :
    {A : Type 0} (p : A → Bool) (xs : List A) (y : A)
    → (length (select p (xs ++ y ∷ [])) ≡ length (select p xs))
      ⊎ ((p y ≡ true) × (length (select p (xs ++ y ∷ [])) ≡ suc (length (select p xs))))
select-append_one p [] y = elim (Bool-cases (p y)) [
  | inl e ↦ inr (e, rw e refl)
  | inr e ↦ inl (rw e refl)
]
select-append_one p (x ∷ xs) y = elim (Bool-cases (p x)) [
  | inl e ↦
      rw e (elim (select-append_one p xs y) [
        | inl h ↦ inl (ap suc h)
        | inr (q, h) ↦ inr (q, ap suc h)
      ])
  | inr e ↦ rw e (select-append_one p xs y)
]

-- The period that a row is for.
its_period :
    (id start : ℕ) (sp : SubscriptionPayment)
    → is_period id start sp ≡ true
    → (id ≡ sp.subscription_id) × (start ≡ sp.period_start)
its_period id start sp h = ground arith

fresh-IsOnce :
    (id start : ℕ) (rows : List SubscriptionPayment) (sp : SubscriptionPayment)
    → length (select (is_period id start) rows) ≤ 1
    → select (is_period sp.subscription_id sp.period_start) rows ≡ []
    → length (select (is_period id start) (rows ++ sp ∷ [])) ≤ 1
fresh-IsOnce id start rows sp once fresh = elim (select-append_one (is_period id start) rows sp) [
  | inl same ↦ omega arith
  | inr (hit, more) ↦
      let (same_id, same_start) = its_period id start sp hit in
      let none_yet : select (is_period id start) rows ≡ [] = rw (same_id, same_start) fresh in
      let zero_yet : length (select (is_period id start) rows) ≡ 0 = ap length none_yet in
      omega arith
]

booked-IsOnce :
    (sub : Subscription) (db after : Db)
    → select (is_period sub.id sub.next_due_at) db.subscription_payments ≡ []
    → Books sub.id sub.next_due_at db after
    → IsOnce db
    → IsOnce after
booked-IsOnce sub db after fresh (inl same) once id start = rw same (once id start)
booked-IsOnce sub db after fresh (inr (sp, more, same_id, same_start)) once id start = rw more (
    fresh-IsOnce id start db.subscription_payments sp (once id start)
      (rw (same_id, same_start) fresh))

module _ (wallet : ℕ → RpcReply) (now : ℕ) (sub : Subscription) (merchant : Merchant) where
  -- A renewal, however it ends, books no period or one: that of this subscription from its due date on,
  -- and this only if the period was not booked before and no invoice of a period of the subscription was
  -- pending or partially paid. So where every period of every subscription is booked at most once, it is
  -- so afterwards.
  pub create_renewal_invoice_lem :
      (db : Db)
      → let out = create_renewal_invoice_for wallet now sub merchant db in
        ((out.1.subscription_payments ≡ db.subscription_payments)
          ⊎ (Books sub.id sub.next_due_at db out.1
              × (select (is_period sub.id sub.next_due_at) db.subscription_payments ≡ [])
              × (unpaid_count sub.id db ≡ 0)))
        × (IsOnce db → IsOnce out.1)
  create_renewal_invoice_lem db = elim (renewal-Outcomes wallet now sub merchant db) [
    | inl same ↦
        (inl (ap (λ d. d.subscription_payments) same), λ once. subst IsOnce (sym same) once)
    | inr (billed, fresh, clear) ↦
        let booked =
          subst (λ out. Books sub.id sub.next_due_at db out.1) (sym billed)
            ((bill-MayBook wallet now sub merchant).run db) in
        (
          inr (booked, fresh, clear),
          booked-IsOnce sub db (create_renewal_invoice_for wallet now sub merchant db).1 fresh
              booked,
        )
  ]
