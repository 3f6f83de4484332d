-- ===== src/Model/Runs.antt =====
-- Rules for runs of service methods: a bind by the two ways in which its first part ends, and what
-- `scalar_one_or_none` has found.
use ghostbill.Prelude.{◌≡◌, refl, sym, subst, none, some, List, [], ◌∷◌}
use ghostbill.Model.Enums.{Error}
use ghostbill.Model.Rows.{Db}
use ghostbill.Model.Session.{Exec, Result, ok, err, ◌>>=◌, scalar_one_or_none}

module _ {A B : Type 0} where
  bind-outcome :
      (P : Result B × Db → Type 0) (f : A → Exec B) (r : Result A) (db' : Db)
      → ((e : Error) → r ≡ err e → P (err e, db'))
      → ((a : A) → r ≡ ok a → P (f a db'))
      → P ((◌>>=◌ (λ _. (r, db')) f) db')
  bind-outcome P f (ok a) db' failed passed = passed a refl
  bind-outcome P f (err e) db' failed passed = failed e refl

  -- A bind ends as its first part does if that raises, else as its second part does.
  pub bind_run :
      (P : Result B × Db → Type 0) (m : Exec A) (f : A → Exec B) (db : Db)
      → ((e : Error) → (m db).0 ≡ err e → P (err e, (m db).1))
      → ((a : A) → (m db).0 ≡ ok a → P (f a (m db).1))
      → P ((m >>= f) db)
  bind_run P m f db failed passed = bind-outcome P f (m db).0 (m db).1 failed passed

  bind-value :
      (f : A → Exec B) (out : Result A × Db) (a : A) (db' : Db)
      → out ≡ (ok a, db')
      → (◌>>=◌ (λ _. out) f) db' ≡ f a db'
  bind-value f out a db' e = subst (λ o. (◌>>=◌ (λ _. o) f) db' ≡ f a db') (sym e) refl

  -- A bind whose first part returns `a` goes on with `a`.
  pub bind-ok :
      (m : Exec A) (f : A → Exec B) (db : Db) {a : A} {db' : Db}
      → m db ≡ (ok a, db')
      → (m >>= f) db ≡ f a db'
  bind-ok m f db {a = a} {db' = db'} e = bind-value f (m db) a db' e

  bind-raised :
      (f : A → Exec B) (out : Result A × Db) (e : Error) (db' : Db)
      → out ≡ (err e, db')
      → (◌>>=◌ (λ _. out) f) db' ≡ (err e, db')
  bind-raised f out e db' h = subst (λ o. (◌>>=◌ (λ _. o) f) db' ≡ (err e, db')) (sym h) refl

  -- A bind whose first part raises, raises.
  pub bind-err :
      (m : Exec A) (f : A → Exec B) (db : Db) {e : Error} {db' : Db}
      → m db ≡ (err e, db')
      → (m >>= f) db ≡ (err e, db')
  bind-err m f db {e = e} {db' = db'} h = bind-raised f (m db) e db' h

module _ {ℓ} {A : Type ℓ} where
  pub scalar-some : (xs : List A) (x : A) → scalar_one_or_none xs ≡ ok (some x) → xs ≡ x ∷ []
  scalar-some [] x e = cc
  scalar-some (y ∷ []) x e = cc
  scalar-some (y ∷ z ∷ rest) x e = cc

  pub scalar-none : (xs : List A) → scalar_one_or_none xs ≡ ok none → xs ≡ []
  scalar-none [] e = refl
  scalar-none (y ∷ []) e = cc
  scalar-none (y ∷ z ∷ rest) e = cc
