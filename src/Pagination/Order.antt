-- ===== src/Pagination/Order.antt =====
-- The order of the pages: rows are sorted by a pair of numbers that no two share, and what stands
-- after a row is what is below it.
use ghostbill.Prelude.{
  ℕ, suc, ◌≡◌, ◌≢◌, refl, sym, ap, ◌∙◌, inl, inr, Bool, true, false, Bool-cases, List, [], ◌∷◌,
  ◌++◌, All, select, length, arith, ◌==◌, ==_refl, if◌then◌else◌,
}
use ghostbill.Prelude.Keys.{All-map}
use ghostbill.Pagination.{tuple_lt, insert_by, order_by, newest_first}

module _ {A : Type 0} (col id : A → ℕ) where
  -- Comes before, newest first.
  abbrev above : A → A → Bool
  above a b = tuple_lt col id b a

  above_trans : (a b c : A) → above a b ≡ true → above b c ≡ true → above a c ≡ true
  above_trans a b c h k = ground arith

  above_irrefl : (a : A) → above a a ≡ false
  above_irrefl a = ground arith

  above_asym : (a b : A) → above a b ≡ true → above b a ≡ false
  above_asym a b h = ground arith

  above_total : (a b : A) → id a ≢ id b → above a b ≡ false → above b a ≡ true
  above_total a b other h = ground arith

  -- Each row comes before all that follow.
  abbrev pub IsSorted : List A → Type 0
  IsSorted [] = Unit
  IsSorted (x ∷ xs) = All (λ y. above x y ≡ true) xs × IsSorted xs

  -- No two rows share an id.
  abbrev pub DistinctIds : List A → Type 0
  DistinctIds [] = Unit
  DistinctIds (x ∷ xs) = All (λ y. id x ≢ id y) xs × DistinctIds xs

  All-insert :
      (P : A → Type 0) (x : A) (ys : List A) → P x → All P ys → All P (insert_by col id above x ys)
  All-insert P x [] p h = (p, tt)
  All-insert P x (y ∷ ys) p (h, hs) = elim (Bool-cases (above x y)) [
    | inl e ↦ rw e (p, (h, hs))
    | inr e ↦ rw e (h, All-insert P x ys p hs)
  ]

  insert-IsSorted :
      (x : A) (ys : List A)
      → All (λ y. id x ≢ id y) ys
      → IsSorted ys
      → IsSorted (insert_by col id above x ys)
  insert-IsSorted x [] other sorted = (tt, tt)
  insert-IsSorted x (y ∷ ys) (other, others) (low, sorted) = elim (Bool-cases (above x y)) [
    | inl e ↦ rw e (
      (
        e,
        All-map (λ z. above y z ≡ true) (λ z. above x z ≡ true) ys (λ z k. above_trans x y z e k)
            low,
      ),
      (low, sorted),
    )
    | inr e ↦ rw e (
      All-insert (λ z. above y z ≡ true) x ys (above_total x y other e) low,
      insert-IsSorted x ys others sorted,
    )
  ]

  All-order : (P : A → Type 0) (xs : List A) → All P xs → All P (order_by col id above xs)
  All-order P [] h = tt
  All-order P (x ∷ xs) (h, hs) = All-insert P x (order_by col id above xs) h (All-order P xs hs)

  pub order-IsSorted : (xs : List A) → DistinctIds xs → IsSorted (newest_first col id xs)
  order-IsSorted [] d = tt
  order-IsSorted (x ∷ xs) (other, d) =
      insert-IsSorted x (newest_first col id xs) (All-order (λ y. id x ≢ id y) xs other)
        (order-IsSorted xs d)

  insert-top :
      (x : A) (zs : List A) → All (λ z. above x z ≡ true) zs → insert_by col id above x zs ≡ x ∷ zs
  insert-top x [] h = refl
  insert-top x (z ∷ zs) (h, hs) = rw h refl

  All-select : (P : A → Type 0) (p : A → Bool) (xs : List A) → All P xs → All P (select p xs)
  All-select P p [] h = tt
  All-select P p (x ∷ xs) (h, hs) = elim (Bool-cases (p x)) [
    | inl e ↦ rw e (h, All-select P p xs hs)
    | inr e ↦ rw e (All-select P p xs hs)
  ]

  -- A query commutes with the order.
  select-insert :
      (p : A → Bool) (x : A) (ys : List A)
      → IsSorted ys
      → select p (insert_by col id above x ys)
        ≡ (if p x then insert_by col id above x (select p ys) else select p ys)
  select-insert p x [] sorted = elim (Bool-cases (p x)) [ inl e ↦ rw e refl | inr e ↦ rw e refl ]
  select-insert p x (y ∷ ys) (low, sorted) =
      let rest = select-insert p x ys sorted in
      elim (Bool-cases (above x y)) [
        | inl top ↦
            let below : All (λ z. above x z ≡ true) (y ∷ ys) = (
              top,
              All-map (λ z. above y z ≡ true) (λ z. above x z ≡ true) ys
                  (λ z k. above_trans x y z top k) low,
            ) in
            let first =
              insert-top x (select p (y ∷ ys))
                (All-select (λ z. above x z ≡ true) p (y ∷ ys) below) in
            elim (Bool-cases (p x)) [ inl e ↦ rw (top, e) (sym first) | inr e ↦ rw (top, e) refl ]
        | inr later ↦ elim (Bool-cases (p y)) [
          | inl f ↦ elim (Bool-cases (p x)) [
            | inl e ↦ rw (later, f, e, later) (cc (rest, e))
            | inr e ↦ rw (later, f, e) (cc (rest, e))
          ]
          | inr f ↦ rw (later, f) rest
        ]
      ]

  pub select-order :
      (p : A → Bool) (xs : List A)
      → DistinctIds xs
      → select p (newest_first col id xs) ≡ newest_first col id (select p xs)
  select-order p [] d = refl
  select-order p (x ∷ xs) (other, d) =
      let rest = select-order p xs d in
      let one = select-insert p x (newest_first col id xs) (order-IsSorted xs d) in
      elim (Bool-cases (p x)) [
        | inl e ↦ one ∙ rw e (ap (insert_by col id above x) rest)
        | inr e ↦ one ∙ rw e rest
      ]

  insert-DistinctIds :
      (x : A) (ys : List A)
      → All (λ y. id x ≢ id y) ys
      → DistinctIds ys
      → DistinctIds (insert_by col id above x ys)
  insert-DistinctIds x [] other d = (tt, tt)
  insert-DistinctIds x (y ∷ ys) (other, others) (apart, d) = elim (Bool-cases (above x y)) [
    | inl e ↦ rw e ((other, others), (apart, d))
    | inr e ↦ rw e (
      All-insert (λ z. id y ≢ id z) x ys (λ same. other (sym same)) apart,
      insert-DistinctIds x ys others d,
    )
  ]

  pub order-DistinctIds : (xs : List A) → DistinctIds xs → DistinctIds (newest_first col id xs)
  order-DistinctIds [] d = tt
  order-DistinctIds (x ∷ xs) (other, d) =
      insert-DistinctIds x (newest_first col id xs) (All-order (λ y. id x ≢ id y) xs other)
        (order-DistinctIds xs d)

  length-insert : (x : A) (ys : List A) → length (insert_by col id above x ys) ≡ suc (length ys)
  length-insert x [] = refl
  length-insert x (y ∷ ys) = elim (Bool-cases (above x y)) [
    | inl e ↦ rw e refl
    | inr e ↦ rw e (ap suc (length-insert x ys))
  ]

  pub length-order : (xs : List A) → length (newest_first col id xs) ≡ length xs
  length-order [] = refl
  length-order (x ∷ xs) = length-insert x (newest_first col id xs) ∙ ap suc (length-order xs)

  -- A single row is in order.
  pub order_single : (xs : List A) (c : A) → newest_first col id xs ≡ c ∷ [] → xs ≡ c ∷ []
  order_single [] c e = cc
  order_single (x ∷ []) c e = e
  order_single (x ∷ y ∷ xs) c e =
      let n = length-order (x ∷ y ∷ xs) in let m = ap length e in absurd (omega (arith, n, m))

  All-mid : (P : A → Type 0) (xs : List A) (c : A) (ys : List A) → All P (xs ++ c ∷ ys) → P c
  All-mid P [] c ys (h, hs) = h
  All-mid P (x ∷ xs) c ys (h, hs) = All-mid P xs c ys hs

  -- The rows below one of a sorted list are those after it.
  pub select-below :
      (xs : List A) (c : A) (ys : List A)
      → IsSorted (xs ++ c ∷ ys)
      → select (λ r. tuple_lt col id r c) (xs ++ c ∷ ys) ≡ ys
  select-below [] c ys (low, sorted) = rw (above_irrefl c) (all_below c ys low)
    where
      all_below :
          (c : A) (ys : List A) → All (λ y. above c y ≡ true) ys → select (λ r. above c r) ys ≡ ys
      all_below c [] low = refl
      all_below c (y ∷ ys) (l, ls) = rw l (cc (all_below c ys ls))
  select-below (x ∷ xs) c ys (low, sorted) =
      let over : above c x ≡ false = above_asym x c (All-mid (λ y. above x y ≡ true) xs c ys low) in
      rw over (select-below xs c ys sorted)

  -- One row has the id.
  pub select-its_id :
      (xs : List A) (c : A) (ys : List A)
      → DistinctIds (xs ++ c ∷ ys)
      → select (λ r. id r == id c) (xs ++ c ∷ ys) ≡ c ∷ []
  select-its_id [] c ys (other, d) = rw (==_refl (id c)) (cc (none_other c ys other))
    where
      none_other :
          (c : A) (ys : List A) → All (λ y. id c ≢ id y) ys → select (λ r. id r == id c) ys ≡ []
      none_other c [] h = refl
      none_other c (y ∷ ys) (h, hs) =
          let off : (id y == id c) ≡ false = ground arith in rw off (none_other c ys hs)
  select-its_id (x ∷ xs) c ys (other, d) =
      let apart = All-mid (λ y. id x ≢ id y) xs c ys other in
      let off : (id x == id c) ≡ false = ground arith in rw off (select-its_id xs c ys d)
