-- ===== src/Prelude/Keys.antt =====
-- Facts about tables: rows that a query selects, rows that a write replaces, and keys that differ.
use Prim.Native.Nat.{ℕ, ◌<◌, ◌≤◌}
use mathlib.Core.Path.{◌≡◌, refl, sym, subst}
use mathlib.Core.Logic.{◌≢◌, ◌⊎◌, inl, inr}
use mathlib.Core.Bool.{Bool, true, false}
use mathlib.Core.List.{List, [], ◌∷◌, ◌++◌, map}
use native.Mathlib.Omega.{arith}
use ghostbill.Prelude.Tests.{◌==◌, Bool-cases, ==_iff}
use ghostbill.Prelude.Lists.{All, any, select, update_where}

-- `y` is a row of the table.
pub data In {ℓ} {A : Type ℓ} (y : A) : List A → Type ℓ where
  head : {x : A} {xs : List A} → x ≡ y → In y (x ∷ xs)
  tail : {x : A} {xs : List A} → In y xs → In y (x ∷ xs)

-- No key stands twice.
abbrev pub Distinct : List ℕ → Type 0
Distinct [] = Unit
Distinct (k ∷ ks) = All (λ j. k ≢ j) ks × Distinct ks

module _ {ℓ} {A : Type ℓ} where
  pub All-map {κ μ} :
      (P : A → Type κ) (Q : A → Type μ) (xs : List A) → ((x : A) → P x → Q x) → All P xs → All Q xs
  All-map P Q [] f h = tt
  All-map P Q (x ∷ xs) f (h, hs) = (f x h, All-map P Q xs f hs)

  pub All-both {κ μ} :
      (P : A → Type κ) (Q : A → Type μ) (xs : List A)
      → All P xs
      → All Q xs
      → All (λ x. P x × Q x) xs
  All-both P Q [] h k = tt
  All-both P Q (x ∷ xs) (h, hs) (k, ks) = ((h, k), All-both P Q xs hs ks)

  pub All-in {κ} : (P : A → Type κ) {y : A} {xs : List A} → In y xs → All P xs → P y
  All-in P (head e) h = subst P e h.0
  All-in P (tail m) h = All-in P m h.1

  pub All-append_one {κ} :
      (P : A → Type κ) (xs : List A) (y : A) → All P xs → P y → All P (xs ++ y ∷ [])
  All-append_one P [] y h p = (p, tt)
  All-append_one P (x ∷ xs) y (h, hs) p = (h, All-append_one P xs y hs p)

  pub All-update_where {κ} :
      (P : A → Type κ) (t : A → Bool) (xs : List A) (y : A)
      → All (λ x. t x ≡ false → P x) xs
      → P y
      → All P (update_where t (λ _. y) xs)
  All-update_where P t [] y h p = tt
  All-update_where P t (x ∷ xs) y (h, hs) p = (
    elim (Bool-cases (t x)) [ inl e ↦ rw e p | inr e ↦ rw e (h e) ],
    All-update_where P t xs y hs p,
  )

  pub select-In :
      (t : A → Bool) (xs : List A) {y : A} {ys : List A} → select t xs ≡ y ∷ ys → In y xs
  select-In t [] e = cc
  select-In t (x ∷ xs) {y = y} {ys = ys} e = elim (Bool-cases (t x)) [
    | inl found ↦ let e' : x ∷ select t xs ≡ y ∷ ys = rw found at e in head (cc)
    | inr other ↦ tail (select-In t xs {y = y} {ys = ys} (rw other at e))
  ]

  pub select-test :
      (t : A → Bool) (xs : List A) {y : A} {ys : List A} → select t xs ≡ y ∷ ys → t y ≡ true
  select-test t [] e = cc
  select-test t (x ∷ xs) {y = y} {ys = ys} e = elim (Bool-cases (t x)) [
    | inl found ↦
        let e' : x ∷ select t xs ≡ y ∷ ys = rw found at e in
        let same : x ≡ y = cc in subst (λ z. t z ≡ true) same found
    | inr other ↦ select-test t xs {y = y} {ys = ys} (rw other at e)
  ]

  pub select-nil : (t : A → Bool) (xs : List A) → select t xs ≡ [] → All (λ x. t x ≡ false) xs
  select-nil t [] e = tt
  select-nil t (x ∷ xs) e = elim (Bool-cases (t x)) [
    | inl found ↦ let e' : x ∷ select t xs ≡ [] = rw found at e in cc
    | inr other ↦ (other, select-nil t xs (rw other at e))
  ]

  -- Where a query finds one row, every row that fits is that row.
  pub select-one :
      (t : A → Bool) (xs : List A) (y : A) → select t xs ≡ y ∷ [] → All (λ x. t x ≡ true → x ≡ y) xs
  select-one t [] y e = tt
  select-one t (x ∷ xs) y e = elim (Bool-cases (t x)) [
    | inl found ↦
        let e' : x ∷ select t xs ≡ y ∷ [] = rw found at e in
        let same : x ≡ y = cc in
        let rest : select t xs ≡ [] = cc in
        (
          λ _. same,
          All-map (λ z. t z ≡ false) (λ z. t z ≡ true → z ≡ y) xs (λ z f g. cc)
              (select-nil t xs rest),
        )
    | inr other ↦ (λ f. cc, select-one t xs y (rw other at e))
  ]

  -- Of two writes to the same rows the second counts.
  pub update_where-twice :
      (t : A → Bool) (a b : A) (xs : List A)
      → t a ≡ true
      → update_where t (λ _. b) (update_where t (λ _. a) xs) ≡ update_where t (λ _. b) xs
  update_where-twice t a b [] h = refl
  update_where-twice t a b (x ∷ xs) h = elim (Bool-cases (t x)) [
    | inl hit ↦ rw (hit, h) (cc (update_where-twice t a b xs h))
    | inr miss ↦ rw (miss, miss) (cc (update_where-twice t a b xs h))
  ]

  -- A write that keeps the key of its row keeps all keys.
  pub map-update_where :
      (key : A → ℕ) (k : ℕ) (y : A) (xs : List A)
      → key y ≡ k
      → map key (update_where (λ x. key x == k) (λ _. y) xs) ≡ map key xs
  map-update_where key k y [] e = refl
  map-update_where key k y (x ∷ xs) e = elim (Bool-cases (key x == k)) [
    | inl found ↦ rw found (cc (e, (==_iff _ _).0 found, map-update_where key k y xs e))
    | inr other ↦ rw other (cc (map-update_where key k y xs e))
  ]

  pub All-of_map {κ} :
      (P : ℕ → Type κ) (f : A → ℕ) (xs : List A) → All P (map f xs) → All (λ x. P (f x)) xs
  All-of_map P f [] h = tt
  All-of_map P f (x ∷ xs) (h, hs) = (h, All-of_map P f xs hs)

  pub All-to_map {κ} :
      (P : ℕ → Type κ) (f : A → ℕ) (xs : List A) → All (λ x. P (f x)) xs → All P (map f xs)
  All-to_map P f [] h = tt
  All-to_map P f (x ∷ xs) (h, hs) = (h, All-to_map P f xs hs)

  -- With distinct keys, a row with the key of `y` is `y`.
  pub Distinct-key :
      (key : A → ℕ) {y : A} (xs : List A)
      → Distinct (map key xs)
      → In y xs
      → All (λ x. (key x == key y) ≡ true → x ≡ y) xs
  Distinct-key key {y = y} [] d m = elim m [ ]
  Distinct-key key {y = y} (x ∷ xs) (d, ds) (head e) = (
    λ _. e,
    All-map (λ z. key x ≢ key z) (λ z. (key z == key y) ≡ true → z ≡ y) xs
        (λ z ne f. absurd (ne (cc (e, (==_iff (key z) (key y)).0 f))))
        (All-of_map (λ j. key x ≢ j) key xs d),
  )
  Distinct-key key {y = y} (x ∷ xs) (d, ds) (tail m) = (
    λ f. absurd (
        All-in (λ z. key x ≢ key z) m (All-of_map (λ j. key x ≢ j) key xs d)
          ((==_iff (key x) (key y)).0 f)),
    Distinct-key key xs ds m,
  )

differs : (a b k : ℕ) → (a == k) ≡ true → a ≢ b → (b == k) ≡ false
differs a b k h ne = ground arith

module _ {ℓ} {A : Type ℓ} where
  pub select-none : (t : A → Bool) (xs : List A) → All (λ x. t x ≡ false) xs → select t xs ≡ []
  select-none t [] h = refl
  select-none t (x ∷ xs) (h, hs) = rw h (select-none t xs hs)

  -- With distinct keys a query for a key finds no row or one.
  pub select_key :
      (key : A → ℕ) (k : ℕ) (xs : List A)
      → Distinct (map key xs)
      → (select (λ x. key x == k) xs ≡ []) ⊎ ((y : A) × (select (λ x. key x == k) xs ≡ y ∷ []))
  select_key key k [] d = inl refl
  select_key key k (x ∷ xs) (d, ds) = elim (Bool-cases (key x == k)) [
    | inl hit ↦ inr (
      x,
      rw
          (
            hit,
            select-none (λ z. key z == k) xs
                (All-map (λ z. key x ≢ key z) (λ z. (key z == k) ≡ false) xs
                  (λ z ne. differs (key x) (key z) k hit ne)
                  (All-of_map (λ j. key x ≢ j) key xs d)),
          )
          refl,
    )
    | inr miss ↦ rw miss (select_key key k xs ds)
  ]

-- A row with a new key keeps the keys distinct.
pub Distinct-append_one :
    (ks : List ℕ) (k n : ℕ) → All (λ j. j < n) ks → n ≤ k → Distinct ks → Distinct (ks ++ k ∷ [])
Distinct-append_one [] k n h le d = (tt, tt)
Distinct-append_one (j ∷ ks) k n (h, hs) le (d, ds) = (
  All-append_one (λ i. j ≢ i) ks k d (λ f. absurd (omega arith)),
  Distinct-append_one ks k n hs le ds,
)

pub map-append_one :
    {A : Type 0} (f : A → ℕ) (xs : List A) (y : A) → map f (xs ++ y ∷ []) ≡ map f xs ++ f y ∷ []
map-append_one f [] y = refl
map-append_one f (x ∷ xs) y = cc (map-append_one f xs y)

module _ {A : Type 0} where
  pub In-written :
      (t : A → Bool) (xs : List A) (x y : A)
      → In x xs
      → t x ≡ true
      → In y (update_where t (λ _. y) xs)
  In-written t [] x y m h = elim m [ ]
  In-written t (z ∷ xs) x y (head e) h =
      let hit : t z ≡ true = subst (λ w. t w ≡ true) (sym e) h in rw hit (head refl)
  In-written t (z ∷ xs) x y (tail m) h = tail (In-written t xs x y m h)

  pub select_two :
      (key : A → ℕ) (t : A → Bool) (xs : List A) (x y : A) (zs : List A)
      → Distinct (map key xs)
      → select t xs ≡ x ∷ y ∷ zs
      → In x xs × In y xs × (t x ≡ true) × (t y ≡ true) × (key x ≢ key y)
  select_two key t [] x y zs d e = cc
  select_two key t (w ∷ xs) x y zs (d, ds) e = elim (Bool-cases (t w)) [
    | inl hit ↦
        let f : w ∷ select t xs ≡ x ∷ y ∷ zs = rw hit at e in
        let same : w ≡ x = cc in
        let rest : select t xs ≡ y ∷ zs = cc in
        let m = select-In t xs rest in
        (
          head same,
          tail m,
          subst (λ v. t v ≡ true) same hit,
          select-test t xs rest,
          subst (λ v. key v ≢ key y) same
              (All-in (λ z. key w ≢ key z) m (All-of_map (λ j. key w ≢ j) key xs d)),
        )
    | inr miss ↦
        let (i, j, p, q, ne) = select_two key t xs x y zs ds (rw miss at e) in
        (tail i, tail j, p, q, ne)
  ]

  -- A row that a write does not fit stays.
  pub In-unwritten :
      (t : A → Bool) (f : A → A) (xs : List A) (x : A)
      → In x xs
      → t x ≡ false
      → In x (update_where t f xs)
  In-unwritten t f [] x m h = elim m [ ]
  In-unwritten t f (z ∷ xs) x (head e) h =
      let miss : t z ≡ false = subst (λ w. t w ≡ false) (sym e) h in rw miss (head e)
  In-unwritten t f (z ∷ xs) x (tail m) h = tail (In-unwritten t f xs x m h)

  pub In-select : (t : A → Bool) (xs : List A) (x : A) → In x xs → t x ≡ true → In x (select t xs)
  In-select t [] x m h = elim m [ ]
  In-select t (z ∷ xs) x (head e) h =
      let hit : t z ≡ true = subst (λ w. t w ≡ true) (sym e) h in rw hit (head e)
  In-select t (z ∷ xs) x (tail m) h = elim (Bool-cases (t z)) [
    | inl hit ↦ rw hit (tail (In-select t xs x m h))
    | inr miss ↦ rw miss (In-select t xs x m h)
  ]

  pub In-map : (f : A → ℕ) (xs : List A) (x : A) → In x xs → In (f x) (map f xs)
  In-map f [] x m = elim m [ ]
  In-map f (z ∷ xs) x (head e) = head (cc e)
  In-map f (z ∷ xs) x (tail m) = tail (In-map f xs x m)

  pub any-In : (t : A → Bool) (xs : List A) (x : A) → In x xs → t x ≡ true → any t xs ≡ true
  any-In t [] x m h = elim m [ ]
  any-In t (z ∷ xs) x (head e) h =
      let hit : t z ≡ true = subst (λ w. t w ≡ true) (sym e) h in rw hit refl
  any-In t (z ∷ xs) x (tail m) h = rw (any-In t xs x m h) (ground arith)

  pub All-by_rows {κ} : (P : A → Type κ) (xs : List A) → ((x : A) → In x xs → P x) → All P xs
  All-by_rows P [] h = tt
  All-by_rows P (x ∷ xs) h = (h x (head refl), All-by_rows P xs (λ y m. h y (tail m)))

  -- A row that fits a test is in the table.
  pub any-row : (t : A → Bool) (xs : List A) → any t xs ≡ true → (x : A) × In x xs × (t x ≡ true)
  any-row t [] e = cc
  any-row t (x ∷ xs) e = elim (Bool-cases (t x)) [
    | inl hit ↦ (x, head refl, hit)
    | inr miss ↦ let (y, there, hit) = any-row t xs (rw miss at e) in (y, tail there, hit)
  ]

  pub any-false : (t : A → Bool) (xs : List A) → any t xs ≡ false → All (λ x. t x ≡ false) xs
  any-false t [] e = tt
  any-false t (x ∷ xs) e = elim (Bool-cases (t x)) [
    | inl hit ↦ cc (rw hit at e)
    | inr miss ↦ (miss, any-false t xs (rw miss at e))
  ]

  pub All-selected {κ} :
      (P : ℕ → Type κ) (f : A → ℕ) (t : A → Bool) (xs : List A)
      → All (λ x. t x ≡ true → P (f x)) xs
      → All P (map f (select t xs))
  All-selected P f t [] h = tt
  All-selected P f t (x ∷ xs) (h, hs) = elim (Bool-cases (t x)) [
    | inl hit ↦ rw hit (h hit, All-selected P f t xs hs)
    | inr miss ↦ rw miss (All-selected P f t xs hs)
  ]
