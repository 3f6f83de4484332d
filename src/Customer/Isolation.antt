-- ===== src/Customer/Isolation.antt =====
-- The table of customers: external ids, and the rows of other merchants.
use ghostbill.Prelude.{
  ℕ, suc, ◌<◌, ◌≡◌, ◌≢◌, ◌⊎◌, inl, inr, refl, sym, subst, ◌∙◌, Bool, true, false, not, Bool-cases,
  Option, none, some, List, [], ◌∷◌, ◌++◌, ◌==◌, ==_refl, ◌&&◌, arith, select, update_where, map,
  All,
}
use ghostbill.Prelude.Keys.{
  In, head, tail, map-append_one, Distinct, All-map, All-in, map-update_where, Distinct-key,
  Distinct-append_one, All-append_one, All-update_where, All-to_map,
}
use ghostbill.Model.{Db, Customer}
use ghostbill.Customer.{collides, has_external_id, customer_has_id, put_customer}

abbrev pub Known : List Customer → Type 0
Known rows = (a b : Customer) → In a rows → In b rows → a.id ≢ b.id → collides a b ≡ false

-- No other customer has the external id of this one.
abbrev pub IsFree : List Customer → Customer → Type 0
IsFree rows c = (d : Customer) → In d rows → c.id ≢ d.id → collides c d ≡ false

-- Two customers of a merchant have different external ids, and all have different ids.
pub record IsTidy (rows : List Customer) (next : ℕ) : Type 0 where
  pub ids : Distinct (map (λ c. c.id) rows)
  pub old : All (λ c. c.id < next) rows
  pub known : Known rows

abbrev pub is_foreign : ℕ → Customer → Bool
is_foreign merchant_id c = not (c.merchant_id == merchant_id)

-- The tables are tidy, and the customers of the other merchants are the given ones.
pub record KeepsTo (merchant_id : ℕ) (foreign : List Customer) (db : Db) : Type 0 where
  pub tidy : IsTidy db.customers db.next_id
  pub untouched : select (is_foreign merchant_id) db.customers ≡ foreign

same_both :
    (m n : ℕ) (a b : Option ℕ)
    → (elim a [ none ↦ false | some k ↦ n == m && has_external_id k b ]) ≡ false
    → (elim b [ none ↦ false | some k ↦ m == n && has_external_id k a ]) ≡ false
same_both m n none none h = refl
same_both m n none (some k) h = ground arith
same_both m n (some j) none h = refl
same_both m n (some j) (some k) h = ground (arith, h)

collides_sym : (a b : Customer) → collides a b ≡ false → collides b a ≡ false
collides_sym a b h = same_both a.merchant_id b.merchant_id a.external_id b.external_id h

In-append_one : {A : Type 0} (xs : List A) (y z : A) → In z (xs ++ y ∷ []) → (z ≡ y) ⊎ In z xs
In-append_one [] y z (head e) = inl (sym e)
In-append_one [] y z (tail m) = elim m [ ]
In-append_one (x ∷ xs) y z (head e) = inr (head e)
In-append_one (x ∷ xs) y z (tail m) = elim (In-append_one xs y z m) [
  | inl e ↦ inl e
  | inr i ↦ inr (tail i)
]

In-update_where :
    {A : Type 0} (t : A → Bool) (xs : List A) (y z : A)
    → In z (update_where t (λ _. y) xs)
    → (z ≡ y) ⊎ In z xs
In-update_where t [] y z m = elim m [ ]
In-update_where t (x ∷ xs) y z m = elim (Bool-cases (t x)) [
  | inl hit ↦ first (rw hit at m) (In-update_where t xs y z)
  | inr miss ↦ second (rw miss at m) (In-update_where t xs y z)
]
  where
    later : (z ≡ y) ⊎ In z xs → (z ≡ y) ⊎ In z (x ∷ xs)
    later (inl e) = inl e
    later (inr i) = inr (tail i)

    first :
        In z (y ∷ update_where t (λ _. y) xs)
        → (In z (update_where t (λ _. y) xs) → (z ≡ y) ⊎ In z xs)
        → (z ≡ y) ⊎ In z (x ∷ xs)
    first (head e) rest = inl (sym e)
    first (tail n) rest = later (rest n)

    second :
        In z (x ∷ update_where t (λ _. y) xs)
        → (In z (update_where t (λ _. y) xs) → (z ≡ y) ⊎ In z xs)
        → (z ≡ y) ⊎ In z (x ∷ xs)
    second (head e) rest = inr (head e)
    second (tail n) rest = later (rest n)

select-append_no :
    {A : Type 0} (p : A → Bool) (xs : List A) (y : A)
    → p y ≡ false
    → select p (xs ++ y ∷ []) ≡ select p xs
select-append_no p [] y h = rw h refl
select-append_no p (x ∷ xs) y h = elim (Bool-cases (p x)) [
  | inl e ↦ rw e (cc (select-append_no p xs y h))
  | inr e ↦ rw e (select-append_no p xs y h)
]

select-update_no :
    {A : Type 0} (p t : A → Bool) (xs : List A) (y : A)
    → p y ≡ false
    → All (λ x. t x ≡ true → p x ≡ false) xs
    → select p (update_where t (λ _. y) xs) ≡ select p xs
select-update_no p t [] y h k = refl
select-update_no p t (x ∷ xs) y h (k, ks) =
    let rest = select-update_no p t xs y h ks in
    elim (Bool-cases (t x)) [
      | inl hit ↦ let gone = k hit in rw (hit, h, gone) rest
      | inr miss ↦ elim (Bool-cases (p x)) [
        | inl e ↦ rw (miss, e) (cc rest)
        | inr e ↦ rw (miss, e) rest
      ]
    ]

-- Two rows that do not collide with a new one, or are old.
pair_apart :
    (rows : List Customer) (c : Customer) {a b : Customer}
    → Known rows
    → IsFree rows c
    → (a ≡ c) ⊎ In a rows
    → (b ≡ c) ⊎ In b rows
    → a.id ≢ b.id
    → collides a b ≡ false
pair_apart rows c known free (inl e) (inl f) ne = absurd (ne (cc (e, f)))
pair_apart rows c {a = a} {b = b} known free (inl e) (inr j) ne =
    subst (λ z. z.id ≢ b.id → collides z b ≡ false) (sym e) (free b j) ne
pair_apart rows c {a = a} {b = b} known free (inr i) (inl f) ne =
    subst (λ z. a.id ≢ z.id → collides a z ≡ false) (sym f)
      (λ other. collides_sym c a (free a i (λ g. other (sym g)))) ne
pair_apart rows c {a = a} {b = b} known free (inr i) (inr j) ne = known a b i j ne

module _ (merchant_id : ℕ) (foreign : List Customer) where
  pub add-KeepsTo :
      (db : Db) (c : Customer)
      → KeepsTo merchant_id foreign db
      → c.id ≡ db.next_id
      → c.merchant_id ≡ merchant_id
      → All (λ d. collides c d ≡ false) db.customers
      → KeepsTo merchant_id foreign
          (record db { next_id = suc db.next_id; customers = db.customers ++ c ∷ [] })
  add-KeepsTo db c k here own free =
      let t = k.tidy in
      record {
        tidy = record {
          ids = rw (map-append_one (λ d. d.id) db.customers c) (
              Distinct-append_one (map (λ d. d.id) db.customers) c.id db.next_id
                (All-to_map (λ j. j < db.next_id) (λ d. d.id) db.customers t.old)
                (omega (arith, here)) t.ids);
          old =
              All-append_one (λ d. d.id < suc db.next_id) db.customers c
                (All-map (λ d. d.id < db.next_id) (λ d. d.id < suc db.next_id) db.customers
                  (λ d h. omega arith) t.old)
                (omega (arith, here));
          known = λ a b i j ne.
              pair_apart db.customers c t.known
                (λ d m other. All-in (λ d. collides c d ≡ false) m free)
                (In-append_one db.customers c a i) (In-append_one db.customers c b j) ne;
        };
        untouched =
            select-append_no (is_foreign merchant_id) db.customers c (ground (arith, own))
            ∙ k.untouched;
      }

  pub put-KeepsTo :
      (db : Db) (c after : Customer)
      → KeepsTo merchant_id foreign db
      → In c db.customers
      → c.merchant_id ≡ merchant_id
      → after.id ≡ c.id
      → after.merchant_id ≡ merchant_id
      → IsFree db.customers after
      → KeepsTo merchant_id foreign (put_customer after db).1
  put-KeepsTo db c after k found own same mine free =
      let t = k.tidy in
      record {
        tidy = record {
          ids = rw (map-update_where (λ d. d.id) after.id after db.customers refl) t.ids;
          old =
              All-update_where (λ d. d.id < db.next_id) (customer_has_id after.id) db.customers
                after
                (All-map (λ d. d.id < db.next_id)
                  (λ d. customer_has_id after.id d ≡ false → d.id < db.next_id) db.customers
                  (λ d h other. h) t.old)
                (let h : c.id < db.next_id = All-in (λ d. d.id < db.next_id) found t.old in
                  omega (arith, h, same));
          known = λ a b i j ne.
              pair_apart db.customers after t.known free
                (In-update_where (customer_has_id after.id) db.customers after a i)
                (In-update_where (customer_has_id after.id) db.customers after b j) ne;
        };
        untouched =
            select-update_no (is_foreign merchant_id) (customer_has_id after.id) db.customers after
              (ground (arith, mine))
              (All-map (λ d. (d.id == c.id) ≡ true → d ≡ c)
                (λ d. customer_has_id after.id d ≡ true → is_foreign merchant_id d ≡ false)
                db.customers
                (λ d h hit.
                  let e : d ≡ c = h (rw same at hit) in rw (e, own, ==_refl merchant_id) refl)
                (Distinct-key (λ d. d.id) db.customers t.ids found))
            ∙ k.untouched;
      }
