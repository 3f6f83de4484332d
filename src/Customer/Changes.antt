-- ===== src/Customer/Changes.antt =====
-- `create_customer` and `update_customer` of backend/app/services/customer_service.py as steps on
-- the table of customers.
use ghostbill.Prelude.{
  ℕ, ◌≡◌, ◌≢◌, inl, inr, refl, sym, subst, ◌∙◌, true, false, Bool-cases, Option, none, some, List,
  ◌==◌, ==_refl, ==_iff, ◌&&◌, arith, select, any, is_some,
}
use ghostbill.Prelude.Keys.{In-written, In, All-in, select-In, select-test, select-nil}
use ghostbill.Model.{
  Db, Customer, Text, Error, Exec, Result, ok, err, bind_run, bind-ok, bind-err, scalar_one_or_none,
  scalar-some, scalar-none, ◌>>=◌, ◌>>◌, pure, customer_validation, customer_conflict, raise_if,
}
use ghostbill.Customer.{
  Patch, unset, set, collides, is_known_as, has_external_id, is_other_known_as, create_customer,
  update_customer, validate_email, get_customer, edit_email, edit_external_id, check_other,
  customer_has_id, put_customer, find_customer_by, is_own, or_missing,
}
use ghostbill.Customer.Isolation.{IsTidy, KeepsTo, IsFree, add-KeepsTo, put-KeepsTo, is_foreign}
use ghostbill.Customer.Calls.{
  create_customer_lem, is_accepted, untaken, new_customer, validate_email_run,
}

module _ (merchant_id : ℕ) (foreign : List Customer) where
  pub create_customer-KeepsTo :
      (now : ℕ) (external_id : Option ℕ) (email : Option Text) (db : Db)
      → KeepsTo merchant_id foreign db
      → KeepsTo merchant_id foreign (create_customer now merchant_id external_id email db).1
  create_customer-KeepsTo now external_id email db k =
      let c = new_customer db.next_id now merchant_id external_id email in
      subst (λ out. KeepsTo merchant_id foreign out.1)
        (sym (create_customer_lem now merchant_id external_id email db k.tidy))
        (elim (Bool-cases (is_accepted email)) [
          | inr bad ↦ rw bad k
          | inl good ↦ elim (Bool-cases (any (collides c) db.customers)) [
            | inl taken ↦ rw (good, taken) k
            | inr free ↦
                rw (good, free)
                  (add-KeepsTo merchant_id foreign db c k refl refl
                    (untaken (collides c) db.customers free))
          ]
        ])

  -- A row of the merchant's that the session holds.
  record Holds (db : Db) (c : Customer) : Type 0 where
    kept : KeepsTo merchant_id foreign db
    found : In c db.customers
    own : c.merchant_id ≡ merchant_id

  abbrev Edited : Result Customer × Db → Type 0
  Edited out = KeepsTo merchant_id foreign out.1 × ((c : Customer) → out.0 ≡ ok c → Holds out.1 c)

  abbrev Kept : {A : Type 0} → Result A × Db → Type 0
  Kept out = KeepsTo merchant_id foreign out.1

  refused : (e : Error) (db : Db) → KeepsTo merchant_id foreign db → Edited (err e, db)
  refused e db k = (k, λ c h. cc)

  returned : (db : Db) (c : Customer) → Holds db c → Edited (ok c, db)
  returned db c h = (h.kept, λ d e. subst (Holds db) (cc) h)

  get_customer-Edited :
      (customer_id : ℕ) (db : Db)
      → KeepsTo merchant_id foreign db
      → Edited (get_customer merchant_id customer_id db)
  unfolding get_customer
  get_customer-Edited customer_id db k =
      bind_run Edited (find_customer_by (is_own merchant_id customer_id)) or_missing db
        (λ e h. refused e db k) (λ found h. answer found h)
    where
      answer :
          (found : Option Customer)
          → scalar_one_or_none (select (is_own merchant_id customer_id) db.customers) ≡ ok found
          → Edited (or_missing found db)
      answer none h = refused _ db k
      answer (some c) h =
          let one = scalar-some (select (is_own merchant_id customer_id) db.customers) c h in
          let test = select-test (is_own merchant_id customer_id) db.customers one in
          returned db c (record {
            kept = k;
            found = select-In (is_own merchant_id customer_id) db.customers one;
            own = ground (arith, test);
          })

  put-Holds :
      (db : Db) (c after : Customer)
      → Holds db c
      → after.id ≡ c.id
      → after.merchant_id ≡ merchant_id
      → IsFree db.customers after
      → Holds (put_customer after db).1 after
  put-Holds db c after h same mine free = record {
    kept = put-KeepsTo merchant_id foreign db c after h.kept h.found h.own same mine free;
    found =
        In-written (customer_has_id after.id) db.customers c after h.found (rw same (==_refl c.id));
    own = mine;
  }

  edit_email-Edited :
      (email : Patch Text) (db : Db) (c : Customer) → Holds db c → Edited (edit_email email c db)
  unfolding edit_email
  edit_email-Edited unset db c h = returned db c h
  edit_email-Edited (set email) db c h =
      let after = record c { email = email } in
      let free : IsFree db.customers after = λ d m ne. h.kept.tidy.known c d h.found m ne in
      let written = put-Holds db c after h refl h.own free in
      let test = validate_email email >> put_customer after in
      elim (Bool-cases (is_accepted email)) [
        | inl good ↦
            let passed : validate_email email db ≡ (ok tt, db) =
              validate_email_run email db ∙ rw good refl in
            let wrote : test db ≡ put_customer after db =
              bind-ok (validate_email email) (λ _. put_customer after) db passed in
            let all : edit_email (set email) c db ≡ (ok after, (put_customer after db).1) =
              bind-ok test (λ _. pure after) db wrote in
            subst Edited (sym all) (returned (put_customer after db).1 after written)
        | inr bad ↦
            let bad_email : validate_email email db ≡ (err customer_validation, db) =
              validate_email_run email db ∙ rw bad refl in
            let all : edit_email (set email) c db ≡ (err customer_validation, db) =
              bind-err test (λ _. pure after) db
                (bind-err (validate_email email) (λ _. put_customer after) db bad_email) in
            subst Edited (sym all) (refused customer_validation db h.kept)
      ]

  no_other :
      (r : Result (Option Customer)) (db : Db)
      → let out =
          (◌>>=◌ (λ d. (r, d)) (λ existing. raise_if (is_some existing) customer_conflict)) db in
        (out.1 ≡ db) × (out.0 ≡ ok tt → r ≡ ok none)
  no_other (ok none) db = (refl, λ h. refl)
  no_other (ok (some c)) db = (refl, λ h. cc)
  no_other (err e) db = (refl, λ h. cc)

  not_known :
      (m k id : ℕ) (d : Customer)
      → id ≢ d.id
      → is_other_known_as m k id d ≡ false
      → is_known_as m k d ≡ false
  not_known m k id d ne h = elim (Bool-cases (is_known_as m k d)) [
    | inr other ↦ other
    | inl known ↦
        let same : (d.id == id) ≡ true = ground (arith, known, h) in
        absurd (ne (sym ((==_iff d.id id).0 same)))
  ]

  same_known :
      (k m n : ℕ) (e f : Option ℕ)
      → has_external_id k e ≡ true
      → (elim e [ none ↦ false | some j ↦ n == m && has_external_id j f ]) ≡ false
      → (n == m && has_external_id k f) ≡ false
  same_known k m n none f h g = cc
  same_known k m n (some j) none h g = ground arith
  same_known k m n (some j) (some i) h g = ground (arith, h, g)

  check_other-Kept :
      (external_id : Option ℕ) (db : Db) (c : Customer)
      → Holds db c
      → ((check_other merchant_id external_id c db).1 ≡ db)
        × ((check_other merchant_id external_id c db).0 ≡ ok tt
            → IsFree db.customers (record c { external_id = external_id }))
  unfolding check_other
  check_other-Kept none db c h = (refl, λ e d m ne. refl)
  check_other-Kept (some k) db c h = elim (Bool-cases (has_external_id k c.external_id)) [
    | inl same ↦ (
      rw same refl,
      λ e d m ne.
          same_known k c.merchant_id d.merchant_id c.external_id d.external_id same
            (h.kept.tidy.known c d h.found m ne),
    )
    | inr changed ↦ rw changed (
        let test = is_other_known_as merchant_id k c.id in
        let (still, none_found) = no_other (scalar_one_or_none (select test db.customers)) db in
        (
          still,
          λ e d m ne.
              let none_at =
                All-in (λ x. test x ≡ false) m
                  (select-nil test db.customers
                    (scalar-none (select test db.customers) (none_found e))) in
              let own = h.own in rw own (not_known merchant_id k c.id d ne none_at),
        ))
  ]

  edit_external_id-Kept :
      (external_id : Patch ℕ) (db : Db) (c : Customer)
      → Holds db c
      → KeepsTo merchant_id foreign (edit_external_id merchant_id external_id c db).1
  unfolding edit_external_id
  edit_external_id-Kept unset db c h = h.kept
  edit_external_id-Kept (set external_id) db c h =
      let after = record c { external_id = external_id } in
      let (still, free) = check_other-Kept external_id db c h in
      let wrote : Kept ((check_other merchant_id external_id c >> put_customer after) db) =
        bind_run Kept (check_other merchant_id external_id c) (λ _. put_customer after) db
          (λ e x. subst (KeepsTo merchant_id foreign) (sym still) h.kept)
          (λ u x.
            subst (λ d. KeepsTo merchant_id foreign (put_customer after d).1) (sym still)
              (put-KeepsTo merchant_id foreign db c after h.kept h.found h.own refl h.own
                (free x))) in
      bind_run Kept (check_other merchant_id external_id c >> put_customer after) (λ _. pure after)
        db (λ e x. wrote) (λ u x. wrote)

  pub update_customer-KeepsTo :
      (customer_id : ℕ) (external_id : Patch ℕ) (email : Patch Text) (db : Db)
      → KeepsTo merchant_id foreign db
      → KeepsTo merchant_id foreign (update_customer merchant_id customer_id external_id email db).1
  unfolding update_customer
  update_customer-KeepsTo customer_id external_id email db k =
      let (kept, own) = get_customer-Edited customer_id db k in
      bind_run Kept (get_customer merchant_id customer_id)
        (λ c. edit_email email c >>= λ d. edit_external_id merchant_id external_id d) db
        (λ e x. kept)
        (λ c x.
          let here = (get_customer merchant_id customer_id db).1 in
          let (edited, own_after) = edit_email-Edited email here c (own c x) in
          bind_run Kept (edit_email email c) (λ d. edit_external_id merchant_id external_id d) here
            (λ e y. edited)
            (λ d y.
              edit_external_id-Kept external_id (edit_email email c here).1 d (own_after d y)))

-- A call that changes customers.
pub data Call : Type 0 where
  create : ℕ → Option ℕ → Option Text → Call
  update : ℕ → Patch ℕ → Patch Text → Call

abbrev pub run : ℕ → Call → Exec Customer
run merchant_id (create now external_id email) = create_customer now merchant_id external_id email
run merchant_id (update customer_id external_id email) =
    update_customer merchant_id customer_id external_id email

-- In tidy tables, where customers have different ids and those of a merchant different external ids, a
-- creation or an update, however it ends, leads to tidy tables with the same customers of all other
-- merchants.
pub run-KeepsTo :
    (merchant_id : ℕ) (call : Call) (db : Db)
    → IsTidy db.customers db.next_id
    → KeepsTo merchant_id (select (is_foreign merchant_id) db.customers) (run merchant_id call db).1
run-KeepsTo merchant_id (create now external_id email) db t =
    create_customer-KeepsTo merchant_id (select (is_foreign merchant_id) db.customers) now
      external_id email db (record { tidy = t; untouched = refl })
run-KeepsTo merchant_id (update customer_id external_id email) db t =
    update_customer-KeepsTo merchant_id (select (is_foreign merchant_id) db.customers) customer_id
      external_id email db (record { tidy = t; untouched = refl })
