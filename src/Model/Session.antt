-- ===== src/Model/Session.antt =====
-- A service method on a session: it returns or raises, and what it has written before a raise stays
-- in the session, so the database comes back in both cases.
use ghostbill.Prelude.{
  ℕ, suc, Bool, false, Option, none, some, List, [], ◌∷◌, ◌++◌, if◌then◌else◌, String,
}
use ghostbill.Model.Enums.{Error, multiple_results}
use ghostbill.Model.Rows.{Db}

pub data Result {ℓ} (A : Type ℓ) : Type ℓ where
  ok : A → Result A
  err : Error → Result A

abbrev pub Exec : Type 0 → Type 0
Exec A = Db → Result A × Db

module _ {A : Type 0} where
  abbrev pub pure : A → Exec A
  pure a db = (ok a, db)

  abbrev pub raise : Error → Exec A
  raise e db = (err e, db)

  abbrev pub lift : Result A → Exec A
  lift r db = (r, db)

  abbrev pub gets : (Db → A) → Exec A
  gets f db = (ok (f db), db)

infixl 5 ◌>>=◌ ◌>>◌
abbrev pub ◌>>=◌ : {A B : Type 0} → Exec A → (A → Exec B) → Exec B
◌>>=◌ m f db = let (r, db') = m db in elim r [ ok a ↦ f a db' | err e ↦ (err e, db') ]

abbrev pub ◌>>◌ : {A B : Type 0} → Exec A → Exec B → Exec B
m >> k = m >>= λ _. k

abbrev pub modify : (Db → Db) → Exec (Unit {0})
modify f db = (ok tt, f db)

abbrev pub raise_if : Bool → Error → Exec (Unit {0})
raise_if c e db = (if c then err e else ok tt, db)

abbrev pub skip : Exec (Unit {0})
skip = pure tt

-- `if c: m`
abbrev pub when : Bool → Exec (Unit {0}) → Exec (Unit {0})
when c m = if c then m else skip

-- `try: m` with `except Exception: handler`
abbrev pub try_except : {A : Type 0} → Exec A → Exec A → Exec A
try_except m handler db = let (r, db') = m db in elim r [ ok a ↦ (ok a, db') | err e ↦ handler db' ]

-- `try: m` with `except Exception: handler; raise`
abbrev pub except_raise : {A : Type 0} → Exec A → Exec (Unit {0}) → Exec A
except_raise m handler db =
    let (r, db') = m db in elim r [ ok a ↦ (ok a, db') | err e ↦ (handler >> raise e) db' ]

-- `result.scalar_one_or_none()`
abbrev pub scalar_one_or_none {ℓ} : {A : Type ℓ} → List A → Result (Option A)
scalar_one_or_none [] = ok none
scalar_one_or_none (x ∷ []) = ok (some x)
scalar_one_or_none (x ∷ y ∷ rest) = err multiple_results

-- `uuid.uuid4()`
abbrev pub uuid4 : Exec ℕ
uuid4 db = (ok db.next_id, record db { next_id = suc db.next_id })

-- `db.add(AuditLog(...))`
abbrev pub add_audit : Option ℕ → String → Option ℕ → Exec (Unit {0})
add_audit merchant_id action entity_id = modify λ db. record db {
  audit_log =
      db.audit_log
      ++ record {
        merchant_id = merchant_id;
        action = action;
        entity_id = entity_id;
        exception = false;
      }
        ∷ [];
}
