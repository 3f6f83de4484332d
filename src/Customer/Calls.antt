-- ===== src/Customer/Calls.antt =====
-- The queries and writes of `create_customer` in backend/app/services/customer_service.py.
use ghostbill.Prelude.{
  ℕ, suc, ◌≡◌, ◌⊎◌, inl, inr, refl, ◌∙◌, Bool, true, false, Bool-cases, Option, none, some, List,
  [], ◌∷◌, ◌++◌, ◌==◌, ◌&&◌, arith, select, any, is_some, All, if◌then◌else◌,
}
use ghostbill.Prelude.Keys.{select_two}
use ghostbill.Model.{
  Db, Customer, Text, Error, Exec, ok, err, bind-ok, bind-err, raise_if, uuid4, scalar_one_or_none,
  ◌>>=◌, ◌>>◌, pure, customer_validation, customer_conflict,
}
use ghostbill.Customer.{
  collides, is_known_as, has_external_id, create_customer, validate_email, check_free, add_customer,
  email_re,
}
use ghostbill.Customer.Isolation.{IsTidy}

module _ {A : Type 0} where
  any-none : (t : A → Bool) (xs : List A) → select t xs ≡ [] → any t xs ≡ false
  any-none t [] e = refl
  any-none t (x ∷ xs) e = elim (Bool-cases (t x)) [
    | inl hit ↦ let f : x ∷ select t xs ≡ [] = rw hit at e in cc
    | inr miss ↦ rw (miss, any-none t xs (rw miss at e)) refl
  ]

  any-one :
      (t : A → Bool) (xs : List A) (y : A) (ys : List A) → select t xs ≡ y ∷ ys → any t xs ≡ true
  any-one t [] y ys e = cc
  any-one t (x ∷ xs) y ys e = elim (Bool-cases (t x)) [
    | inl hit ↦ rw hit refl
    | inr miss ↦ rw (miss, any-one t xs y ys (rw miss at e)) refl
  ]

  pub untaken : (t : A → Bool) (xs : List A) → any t xs ≡ false → All (λ x. t x ≡ false) xs
  untaken t [] e = tt
  untaken t (x ∷ xs) e = elim (Bool-cases (t x)) [
    | inl hit ↦ absurd (ground (arith, hit))
    | inr miss ↦ (miss, untaken t xs (rw miss at e))
  ]

both_known :
    (m k n l : ℕ) (a b : Option ℕ)
    → (n == m && has_external_id k a) ≡ true
    → (l == m && has_external_id k b) ≡ true
    → (elim a [ none ↦ false | some j ↦ l == n && has_external_id j b ]) ≡ true
both_known m k n l none none h g = ground (arith, h)
both_known m k n l none (some j) h g = ground (arith, h)
both_known m k n l (some i) none h g = ground (arith, g)
both_known m k n l (some i) (some j) h g = ground (arith, h, g)

-- A query for an external id of a merchant finds no customer or one.
known_once :
    (merchant_id k next : ℕ) (rows : List Customer)
    → IsTidy rows next
    → (found : List Customer) → select (is_known_as merchant_id k) rows ≡ found
    → (found ≡ []) ⊎ ((c : Customer) × (found ≡ c ∷ []))
known_once merchant_id k next rows t [] e = inl refl
known_once merchant_id k next rows t (c ∷ []) e = inr (c, refl)
known_once merchant_id k next rows t (c ∷ d ∷ more) e =
    let (i, j, p, q, ne) =
      select_two (λ c. c.id) (is_known_as merchant_id k) rows c d more t.ids e in
    let hit =
      both_known merchant_id k c.merchant_id d.merchant_id c.external_id d.external_id p q in
    let miss = t.known c d i j ne in absurd (cc (hit, miss))

any-never : {A : Type 0} (xs : List A) → any (λ _. false) xs ≡ false
any-never [] = refl
any-never (x ∷ xs) = any-never xs

taken_run :
    (test : Customer → Bool) (e : Error) (rows : List Customer) (db : Db)
    → ((select test rows ≡ []) ⊎ ((c : Customer) × (select test rows ≡ c ∷ [])))
    → (◌>>=◌
          (λ d. (scalar_one_or_none (select test rows), d))
          (λ existing. raise_if (is_some existing) e))
        db
      ≡ (if any test rows then (err e, db) else (ok tt, db))
taken_run test e rows db (inl h) = rw (h, any-none test rows h) refl
taken_run test e rows db (inr (c, h)) = rw (h, any-one test rows c [] h) refl

-- The test of an external id raises just where another customer has it.
check_free_run :
    (c : Customer) (external_id : Option ℕ) (db : Db)
    → IsTidy db.customers db.next_id
    → c.external_id ≡ external_id
    → check_free c.merchant_id external_id db ≡ (
        if any
          (λ d. elim external_id [ none ↦ false | some k ↦ is_known_as c.merchant_id k d ])
          db.customers
        then (err customer_conflict, db)
        else (ok tt, db))
unfolding check_free
check_free_run c none db t e = rw (any-never db.customers) refl
check_free_run c (some k) db t e =
    taken_run (is_known_as c.merchant_id k) customer_conflict db.customers db (
      known_once c.merchant_id k db.next_id db.customers t
        (select (is_known_as c.merchant_id k) db.customers) refl)

abbrev pub is_accepted : Option Text → Bool
is_accepted none = true
is_accepted (some email) = email_re email

abbrev pub new_customer : ℕ → ℕ → ℕ → Option ℕ → Option Text → Customer
new_customer id now merchant_id external_id email = record {
  id = id;
  merchant_id = merchant_id;
  external_id = external_id;
  email = email;
  created_at = now;
}

pub validate_email_run :
    (email : Option Text) (db : Db)
    → validate_email email db
      ≡ (if is_accepted email then (ok tt, db) else (err customer_validation, db))
unfolding validate_email
validate_email_run none db = refl
validate_email_run (some email) db = elim (Bool-cases (email_re email)) [
  | inl good ↦ rw good refl
  | inr bad ↦ rw bad refl
]

abbrev store_new : ℕ → ℕ → Option ℕ → Option Text → Exec Customer
store_new now merchant_id external_id email = uuid4 >>= λ id.
    add_customer (new_customer id now merchant_id external_id email)
    >> pure (new_customer id now merchant_id external_id email)

store_new_run :
    (now merchant_id : ℕ) (external_id : Option ℕ) (email : Option Text) (db : Db)
    → let c = new_customer db.next_id now merchant_id external_id email in
      any (collides c) db.customers ≡ false
      → store_new now merchant_id external_id email db
        ≡ (ok c, record db { next_id = suc db.next_id; customers = db.customers ++ c ∷ [] })
store_new_run now merchant_id external_id email db free =
    let c = new_customer db.next_id now merchant_id external_id email in
    let numbered = record db { next_id = suc db.next_id } in
    let stored : add_customer c numbered
        ≡ (ok tt, record numbered { customers = db.customers ++ c ∷ [] }) =
      rw free refl in
    bind-ok (add_customer c) (λ _. pure c) numbered stored

-- In tidy tables a creation is refused for an e-mail address that the expression does not match, and else
-- where a customer of the merchant has the external id, and neither changes anything; else the customer
-- stands last in the table.
pub create_customer_lem :
    (now merchant_id : ℕ) (external_id : Option ℕ) (email : Option Text) (db : Db)
    → IsTidy db.customers db.next_id
    → let c = new_customer db.next_id now merchant_id external_id email in
      create_customer now merchant_id external_id email db ≡ (
        if is_accepted email
        then if any (collides c) db.customers
          then (err customer_conflict, db)
          else (ok c, record db { next_id = suc db.next_id; customers = db.customers ++ c ∷ [] })
        else (err customer_validation, db))
unfolding create_customer
create_customer_lem now merchant_id external_id email db t =
    let c = new_customer db.next_id now merchant_id external_id email in
    let rest : Exec Customer =
      check_free merchant_id external_id >> store_new now merchant_id external_id email in
    let valid = validate_email_run email db in
    let unused = check_free_run c external_id db t refl in
    elim (Bool-cases (is_accepted email)) [
      | inr bad ↦ rw bad (bind-err (validate_email email) (λ _. rest) db (valid ∙ rw bad refl))
      | inl good ↦
          let passed : validate_email email db ≡ (ok tt, db) = valid ∙ rw good refl in
          elim (Bool-cases (any (collides c) db.customers)) [
            | inl taken ↦
                let refused : check_free merchant_id external_id db ≡ (err customer_conflict, db) =
                  unused ∙ rw taken refl in
                rw (good, taken)
                  (bind-ok (validate_email email) (λ _. rest) db passed
                    ∙ bind-err (check_free merchant_id external_id)
                        (λ _. store_new now merchant_id external_id email) db refused)
            | inr free ↦
                let unique : check_free merchant_id external_id db ≡ (ok tt, db) =
                  unused ∙ rw free refl in
                rw (good, free)
                  (bind-ok (validate_email email) (λ _. rest) db passed
                    ∙ bind-ok (check_free merchant_id external_id)
                        (λ _. store_new now merchant_id external_id email) db unique
                    ∙ store_new_run now merchant_id external_id email db free)
          ]
    ]
