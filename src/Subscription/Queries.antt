-- ===== src/Subscription/Queries.antt =====
-- `get_subscription` and `list_subscriptions` of backend/app/services/subscription_service.py.
use ghostbill.Prelude.{
  ℕ, Bool, true, Option, none, some, List, [], ◌∷◌, ◌++◌, ◌==◌, ◌&&◌, select, map, take, drop,
  length, max, min, order_desc,
}
use ghostbill.Model.{
  InvoiceStatus, SubscriptionStatus, is_subscription_status, ok, Exec, pure, ◌>>=◌,
  scalar_one_or_none, Customer, Invoice, Subscription, SubscriptionPayment,
}
use ghostbill.Subscription.{get_for_update}

-- A row of the join.
abbrev pub join_invoices :
    List Invoice → SubscriptionPayment → List (SubscriptionPayment × InvoiceStatus × Option ℕ)
join_invoices invoices sp =
    map (λ i. (sp, i.status, i.paid_at)) (select (λ i. i.id == sp.invoice_id) invoices)

abbrev pub join_all :
    List Invoice → List SubscriptionPayment → List (SubscriptionPayment × InvoiceStatus × Option ℕ)
join_all invoices [] = []
join_all invoices (sp ∷ sps) = join_invoices invoices sp ++ join_all invoices sps

pub record SubscriptionView : Type 0 where
  pub subscription : Subscription
  pub customer : Option Customer
  pub payments : List (SubscriptionPayment × InvoiceStatus × Option ℕ)

-- The query of the subscription is that of `_get_for_update`.
unfoldable pub get_subscription : ℕ → ℕ → Exec SubscriptionView
unfolding get_for_update
get_subscription merchant_id subscription_id = do
  sub ← get_for_update merchant_id subscription_id
  customer ← λ db. (scalar_one_or_none (select (λ c. c.id == sub.customer_id) db.customers), db)
  payments ← λ db. (
    ok (
        order_desc (λ row. row.0.period_start)
          (join_all db.invoices
            (select (λ sp. sp.subscription_id == subscription_id) db.subscription_payments))),
    db,
  )
  pure (record { subscription = sub; customer = customer; payments = payments })

abbrev has_status : Option SubscriptionStatus → Subscription → Bool
has_status none s = true
has_status (some status) s = is_subscription_status s.status status

abbrev has_customer : Option ℕ → Subscription → Bool
has_customer none s = true
has_customer (some customer_id) s = s.customer_id == customer_id

abbrev pub is_listed : ℕ → Option SubscriptionStatus → Option ℕ → Subscription → Bool
is_listed merchant_id status customer_id s =
    s.merchant_id == merchant_id && has_status status s && has_customer customer_id s

-- `limit` and `offset` are clamped; a negative one is clamped like 0.
unfoldable pub list_subscriptions :
    ℕ → Option SubscriptionStatus → Option ℕ → ℕ → ℕ → Exec (List Subscription × ℕ)
list_subscriptions merchant_id status customer_id limit offset db =
    let rows = select (is_listed merchant_id status customer_id) db.subscriptions in
    (
      ok (
        take (max 1 (min limit 100)) (drop offset (order_desc (λ s. s.created_at) rows)),
        length rows,
      ),
      db,
    )
