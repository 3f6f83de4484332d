-- ===== src/Pagination/Walk.antt =====
-- A client that follows the cursors from page to page.
use ghostbill.Prelude.{
  ℕ, zero, suc, ◌≤◌, ◌<◌, ◌≡◌, refl, sym, ap, subst, ◌∙◌, inl, inr, Bool, true, false, Bool-cases,
  Option, none, some, List, [], ◌∷◌, ◌++◌, select, length, take, arith, ltb, ◌-◌, ◌==◌,
  if◌then◌else◌,
}
use ghostbill.Model.{Result, ok, err}
use ghostbill.Pagination.{Page, paginate_cursor, clamp_limit, cut, newest_first, tuple_lt}
use ghostbill.Pagination.Order.{
  IsSorted, DistinctIds, order-IsSorted, order-DistinctIds, select-order, length-order,
  order_single, select-below, select-its_id,
}

module _ {A : Type 0} (col id : A → ℕ) where
  abbrev pub last_of : List A → Option A
  last_of [] = none
  last_of (x ∷ []) = some x
  last_of (x ∷ y ∷ xs) = last_of (y ∷ xs)

  abbrev pub prepend : List A → Result (Option (List A)) → Result (Option (List A))
  prepend xs (ok (some ys)) = ok (some (xs ++ ys))
  prepend xs (ok none) = ok none
  prepend xs (err e) = err e

  -- What the client does with a page: where there are more, it asks for those after the last one.
  abbrev pub go_on : (ℕ → Result (Option (List A))) → Page A → Result (Option (List A))
  go_on next page =
      if page.has_more
      then elim (last_of page.data_rows) [
        | none ↦ ok (some [])
        | some r ↦ prepend page.data_rows (next (id r))
      ]
      else ok (some page.data_rows)

  abbrev pub on_page : (ℕ → Result (Option (List A))) → Result (Page A) → Result (Option (List A))
  on_page next (err e) = err e
  on_page next (ok page) = go_on next page

  -- The pages from a cursor on, one unit of fuel for each.
  abbrev pub follow : List A → ℕ → ℕ → Option ℕ → Result (Option (List A))
  follow rows limit zero cursor = ok none
  follow rows limit (suc fuel) cursor =
      on_page (λ k. follow rows limit fuel (some k))
        (paginate_cursor col id rows rows limit cursor none)

  take_all : (n : ℕ) (xs : List A) → length xs ≤ n → take n xs ≡ xs
  take_all n [] h = take_nil n
    where
      take_nil : (n : ℕ) → take {A = A} n [] ≡ []
      take_nil zero = refl
      take_nil (suc n) = refl
  take_all zero (x ∷ xs) h = absurd (omega arith)
  take_all (suc n) (x ∷ xs) h = cc (take_all n xs (omega arith))

  last_snoc : (f : List A) (c : A) → last_of (f ++ c ∷ []) ≡ some c
  last_snoc [] c = refl
  last_snoc (x ∷ []) c = refl
  last_snoc (x ∷ y ∷ f) c = last_snoc (y ∷ f) c

  -- More rows than a page holds: the page ends with some row, and the rest is shorter.
  take_more :
      (n : ℕ) (xs : List A)
      → suc n < length xs
      → (f : List A) × (c : A) × (rest : List A) × (take (suc n) xs ≡ f ++ c ∷ [])
        × (xs ≡ f ++ c ∷ rest)
        × (length rest < length xs)
  take_more n [] h = absurd (omega arith)
  take_more zero (x ∷ xs) h = ([], x, xs, refl, refl, omega arith)
  take_more (suc n) (x ∷ xs) h =
      let (f, c, rest, front, whole, less) = take_more n xs (omega arith) in
      (x ∷ f, c, rest, ap (λ t. x ∷ t) front, ap (λ t. x ∷ t) whole, omega (arith, less))

  more_iff : (n : ℕ) (xs : List A) → ltb n (length (take (suc n) xs)) ≡ ltb n (length xs)
  more_iff n [] = refl
  more_iff zero (x ∷ xs) = ground arith
  more_iff (suc n) (x ∷ xs) = ground (arith, more_iff n xs)

  take-take : (n : ℕ) (xs : List A) → take n (take (suc n) xs) ≡ take n xs
  take-take zero [] = refl
  take-take (suc n) [] = refl
  take-take zero (x ∷ xs) = refl
  take-take (suc n) (x ∷ xs) = cc (take-take n xs)

  append_assoc : (xs : List A) (y : A) (ys : List A) → (xs ++ y ∷ []) ++ ys ≡ xs ++ y ∷ ys
  append_assoc [] y ys = refl
  append_assoc (x ∷ xs) y ys = cc (append_assoc xs y ys)

  append_under :
      (xs : List A) (y : A) (ys : List A) (c : A) (zs : List A)
      → (xs ++ y ∷ ys) ++ c ∷ zs ≡ xs ++ y ∷ (ys ++ c ∷ zs)
  append_under [] y ys c zs = refl
  append_under (x ∷ xs) y ys c zs = cc (append_under xs y ys c zs)

  same_page :
      {d d' : List A} {b b' : Bool}
      → d ≡ d'
      → b ≡ b'
      → ◌≡◌ {A = Page A}
          (record { data_rows = d; has_more = b })
          (record { data_rows = d'; has_more = b' })
  same_page h k = cc (h, k)

  page_then_rest :
      (next : ℕ → Result (Option (List A))) (page : Page A) (f : List A) (c : A) (rest : List A)
      → page ≡ record { data_rows = f ++ c ∷ []; has_more = true }
      → next (id c) ≡ ok (some rest)
      → go_on next page ≡ ok (some (f ++ c ∷ rest))
  page_then_rest next page f c rest same follows =
      let q : go_on next (record { data_rows = f ++ c ∷ []; has_more = true })
          ≡ ok (some ((f ++ c ∷ []) ++ rest)) =
        rw (last_snoc f c, follows) refl in
      ap (go_on next) same ∙ q ∙ ap (λ t. ok (some t)) (append_assoc f c rest)

  -- A page of `xs` and what the next ones show are all of `xs`.
  go_on-cut :
      (next : ℕ → Result (Option (List A))) (n : ℕ) (xs : List A)
      → ((f : List A) (c : A) (rest : List A)
          → xs ≡ f ++ c ∷ rest
          → length rest < length xs
          → next (id c) ≡ ok (some rest))
      → go_on next (cut col id (suc n) xs) ≡ ok (some xs)
  go_on-cut next n xs follows = elim (Bool-cases (ltb (suc n) (length xs))) [
    | inl more ↦
        let (f, c, rest, front, whole, less) = take_more n xs (ground arith) in
        page_then_rest next (cut col id (suc n) xs) f c rest
          (same_page (take-take (suc n) xs ∙ front) (more_iff (suc n) xs ∙ more))
          (follows f c rest whole less)
        ∙ ap (λ t. ok (some t)) (sym whole)
    | inr last ↦
        let p : cut col id (suc n) xs ≡ record { data_rows = take (suc n) xs; has_more = false } =
          same_page (take-take (suc n) xs) (more_iff (suc n) xs ∙ last) in
        ap (go_on next) p ∙ ap (λ t. ok (some t)) (take_all (suc n) xs (ground arith))
  ]

  module _ (rows : List A) (limit : ℕ) (distinct : DistinctIds col id rows) where
    -- The page after a row is the first part of what comes after it.
    page_after :
        (front : List A) (c : A) (rest : List A)
        → newest_first col id rows ≡ front ++ c ∷ rest
        → paginate_cursor col id rows rows limit (some (id c)) none
          ≡ ok (cut col id (clamp_limit limit) rest)
    unfolding paginate_cursor
    page_after front c rest split =
        let sorted = subst (IsSorted col id) split (order-IsSorted col id rows distinct) in
        let apart = subst (DistinctIds col id) split (order-DistinctIds col id rows distinct) in
        let here : select (λ r. id r == id c) rows ≡ c ∷ [] =
          order_single col id (select (λ r. id r == id c) rows) c (
            sym (select-order col id (λ r. id r == id c) rows distinct)
            ∙ ap (select (λ r. id r == id c)) split
            ∙ select-its_id col id front c rest apart) in
        let below : newest_first col id (select (λ r. tuple_lt col id r c) rows) ≡ rest =
          sym (select-order col id (λ r. tuple_lt col id r c) rows distinct)
          ∙ ap (select (λ r. tuple_lt col id r c)) split
          ∙ select-below col id front c rest sorted in
        rw (here, below) refl

    positive : (p : ℕ) × (clamp_limit limit ≡ suc p)
    unfolding clamp_limit
    positive = (clamp_limit limit - 1, ground arith)

    -- From a row on.
    follow_after :
        (fuel : ℕ) (front : List A) (c : A) (rest : List A)
        → newest_first col id rows ≡ front ++ c ∷ rest
        → length rest < fuel
        → follow rows limit fuel (some (id c)) ≡ ok (some rest)
    follow_after zero front c rest split enough = absurd (omega arith)
    follow_after (suc fuel) front c rest split enough =
        let (p, least) = positive in
        let page = page_after front c rest split ∙ ap (λ l. ok (cut col id l rest)) least in
        ap (on_page (λ k. follow rows limit fuel (some k))) page
        ∙ go_on-cut (λ k. follow rows limit fuel (some k)) p rest
            (λ f d later whole less.
              follow_after fuel (front ++ c ∷ f) d later
                (split ∙ ap (λ t. front ++ c ∷ t) whole ∙ sym (append_under front c f d later))
                (omega arith))

    -- Where no two rows have the same id: a client that asks for the first page and then, while there are
    -- more, for the page after the last row that it has got, ends after at most as many pages as there are
    -- rows and one more, whatever the size of a page, and has got every row once, newest first.
    pub follow-newest_first :
        follow rows limit (suc (length rows)) none ≡ ok (some (newest_first col id rows))
    unfolding paginate_cursor
    follow-newest_first =
        let (p, least) = positive in
        let sorted = newest_first col id rows in
        ap (λ l. on_page (λ k. follow rows limit (length rows) (some k)) (ok (cut col id l sorted)))
          least
        ∙ go_on-cut (λ k. follow rows limit (length rows) (some k)) p sorted
            (λ f c rest whole less.
              follow_after (length rows) f c rest whole (omega (arith, length-order col id rows)))
