-- ===== src/Model/Frames.antt =====
-- Frames: a relation between the tables before and after a run that composes, so that it holds of a
-- service method if it holds of the method's parts.
use ghostbill.Prelude.{
  ℕ, ◌≤◌, ◌≡◌, refl, ◌∙◌, Bool, true, false, if◌then◌else◌, Option, String, arith,
}
use ghostbill.Model.Enums.{Error}
use ghostbill.Model.Rows.{Db, Subscription}
use ghostbill.Model.Session.{
  Exec, Result, ok, err, pure, raise, ◌>>=◌, try_except, except_raise, add_audit,
}
use ghostbill.Model.Tables.{put_subscription}
use ghostbill.Model.Runs.{bind_run}

pub record Frame : Type 1 where
  pub rel : Db → Db → Type 0
  pub same : (db : Db) → rel db db
  pub after : {a b c : Db} → rel a b → rel b c → rel a c

-- However the method ends, its tables are in relation to those before.
pub record Keeps (F : Frame) {A : Type 0} (m : Exec A) : Type 0 where
  pub run : (db : Db) → F.rel db (m db).1

module _ {F : Frame} {A : Type 0} where
  -- A method that writes nothing.
  pub read-Keeps : {r : Db → Result A} → Keeps F (λ db. (r db, db))
  read-Keeps = record { run = λ db. F.same db }

  pub pure-Keeps : {a : A} → Keeps F (pure a)
  pure-Keeps = record { run = λ db. F.same db }

  pub bind-Keeps :
      {B : Type 0} {m : Exec A} {f : A → Exec B}
      → Keeps F m
      → ((a : A) → Keeps F (f a))
      → Keeps F (m >>= f)
  bind-Keeps {m = m} {f = f} first rest = record {
    run = λ db.
        bind_run (λ out. F.rel db out.1) m f db (λ e failed. first.run db)
          (λ a passed. F.after (first.run db) ((rest a).run (m db).1));
  }

  pub if-Keeps : (b : Bool) {m k : Exec A} → Keeps F m → Keeps F k → Keeps F (if b then m else k)
  if-Keeps true hm hk = hm
  if-Keeps false hm hk = hk

  tried :
      (r : Result A) (handler : Exec A) (db db' : Db)
      → F.rel db db'
      → Keeps F handler
      → F.rel db (try_except (λ _. (r, db')) handler db).1
  tried (ok a) handler db db' h k = h
  tried (err e) handler db db' h k = F.after h (k.run db')

  pub try_except-Keeps :
      {m handler : Exec A} → Keeps F m → Keeps F handler → Keeps F (try_except m handler)
  try_except-Keeps {m = m} {handler = handler} hm hh = record {
    run = λ db. tried (m db).0 handler db (m db).1 (hm.run db) hh;
  }

module _ {F : Frame} {A : Type 0} where
  pub raise-Keeps : {e : Error} → Keeps F {A = A} (raise e)
  raise-Keeps = record { run = λ db. F.same db }

  undone :
      (r : Result A) (handler : Exec (Unit {0})) (db db' : Db)
      → F.rel db db'
      → Keeps F handler
      → F.rel db (except_raise (λ _. (r, db')) handler db).1
  undone (ok a) handler db db' h k = h
  undone (err e) handler db db' h k =
      F.after h ((bind-Keeps {f = λ _. raise {A = A} e} k (λ _. raise-Keeps)).run db')

  pub except_raise-Keeps :
      {m : Exec A} {handler : Exec (Unit {0})}
      → Keeps F m
      → Keeps F handler
      → Keeps F (except_raise m handler)
  except_raise-Keeps {m = m} {handler = handler} hm hh = record {
    run = λ db. undone (m db).0 handler db (m db).1 (hm.run db) hh;
  }

-- An invariant is kept.
abbrev pub invariant : (Db → Type 0) → Frame
invariant P = record { rel = λ a b. P a → P b; same = λ db p. p; after = λ f g p. g (f p) }

-- Invoices, payments and addresses stay as they are.
pub record IsAside (db db' : Db) : Type 0 where
  pub invoices : db'.invoices ≡ db.invoices
  pub payments : db'.payments ≡ db.payments
  pub addresses : db'.addresses ≡ db.addresses
  pub next_id : db.next_id ≤ db'.next_id

abbrev pub aside : Frame
aside = record {
  rel = IsAside;
  same = λ db. record { invoices = refl; payments = refl; addresses = refl; next_id = omega arith };
  after = λ h k. record {
    invoices = k.invoices ∙ h.invoices;
    payments = k.payments ∙ h.payments;
    addresses = k.addresses ∙ h.addresses;
    next_id = omega (arith, h.next_id, k.next_id);
  };
}

-- The writes of the services that leave those tables alone.
pub put_subscription-Aside : (s : Subscription) → Keeps aside (put_subscription s)
put_subscription-Aside s = record {
  run = λ db. record { invoices = refl; payments = refl; addresses = refl; next_id = omega arith };
}

pub add_audit-Aside :
    (merchant_id : Option ℕ) (action : String) (entity_id : Option ℕ)
    → Keeps aside (add_audit merchant_id action entity_id)
add_audit-Aside merchant_id action entity_id = record {
  run = λ db. record { invoices = refl; payments = refl; addresses = refl; next_id = omega arith };
}
