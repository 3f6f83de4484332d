-- ===== src/Customer.antt =====
-- CustomerService of backend/app/services/customer_service.py. An external id is only compared, so it is
-- a number, and metadata is left out.
pub mod Email
pub mod Isolation
pub mod Calls
pub mod Changes
use ghostbill.Prelude.{
  ℕ, Bool, true, false, not, Option, none, some, List, [], ◌∷◌, ◌++◌, leb, ◌==◌, ◌&&◌, ◌||◌,
  if◌then◌else◌, is_some, select, update_where, any, take, drop, length, max, min, order_desc,
}
use ghostbill.Model.{
  Db, Customer, Text, ok, err, Exec, pure, raise, raise_if, modify, uuid4, when, scalar_one_or_none,
  ◌>>=◌, ◌>>◌, customer_not_found, customer_validation, customer_conflict, integrity_error,
}

-- `\s`: the code points that Python calls whitespace.
abbrev pub is_space : ℕ → Bool
is_space c =
    (leb 9 c && leb c 13)
    || (leb 28 c && leb c 32)
    || c == 133
    || c == 160
    || c == 5760
    || (leb 8192 c && leb c 8202)
    || c == 8232
    || c == 8233
    || c == 8239
    || c == 8287
    || c == 12288

-- `[^@\s]`
abbrev pub is_word : ℕ → Bool
is_word c = not (c == 64 || is_space c)

-- The matcher of a regular expression: `+` of a class of characters, one character, and `$`, each with
-- what follows. `$` holds also before a last line break.
abbrev pub plus : (ℕ → Bool) → (Text → Bool) → Text → Bool
plus class next [] = false
plus class next (c ∷ cs) = let more = plus class next cs in class c && (next cs || more)

abbrev pub char : ℕ → (Text → Bool) → Text → Bool
char k next [] = false
char k next (c ∷ cs) = c == k && next cs

abbrev pub dollar : Text → Bool
dollar [] = true
dollar (c ∷ []) = c == 10
dollar (c ∷ d ∷ cs) = false

-- `_EMAIL_RE.match`: `^[^@\s]+@[^@\s]+\.[^@\s]+$`
unfoldable pub email_re : Text → Bool
email_re = plus is_word (char 64 (plus is_word (char 46 (plus is_word dollar))))

unfoldable pub validate_email : Option Text → Exec (Unit {0})
validate_email none = pure tt
validate_email (some email) = raise_if (not (email_re email)) customer_validation

-- `external_id == k` in SQL, which NULL does not fulfil.
abbrev pub has_external_id : ℕ → Option ℕ → Bool
has_external_id k none = false
has_external_id k (some j) = j == k

abbrev pub is_known_as : ℕ → ℕ → Customer → Bool
is_known_as merchant_id k c = c.merchant_id == merchant_id && has_external_id k c.external_id

-- Another customer of the merchant with the external id; `except` is the customer that is updated.
abbrev pub is_other_known_as : ℕ → ℕ → ℕ → Customer → Bool
is_other_known_as merchant_id k except c = is_known_as merchant_id k c && not (c.id == except)

abbrev pub find_customer_by : (Customer → Bool) → Exec (Option Customer)
find_customer_by test db = (scalar_one_or_none (select test db.customers), db)

-- The unique index on the merchant and the external id.
abbrev pub collides : Customer → Customer → Bool
collides a b = elim a.external_id [ none ↦ false | some k ↦ is_known_as a.merchant_id k b ]

abbrev pub add_customer : Customer → Exec (Unit {0})
add_customer c db =
    if any (collides c) db.customers
    then (err integrity_error, db)
    else (ok tt, record db { customers = db.customers ++ c ∷ [] })

abbrev pub customer_has_id : ℕ → Customer → Bool
customer_has_id k c = c.id == k

abbrev pub put_customer : Customer → Exec (Unit {0})
put_customer c =
    modify λ db. record db { customers = update_where (customer_has_id c.id) (λ _. c) db.customers }

unfoldable pub check_free : ℕ → Option ℕ → Exec (Unit {0})
check_free merchant_id none = pure tt
check_free merchant_id (some k) = do
  existing ← find_customer_by (is_known_as merchant_id k)
  raise_if (is_some existing) customer_conflict

unfoldable pub create_customer : ℕ → ℕ → Option ℕ → Option Text → Exec Customer
unfolding validate_email check_free
create_customer now merchant_id external_id email = do
  validate_email email
  check_free merchant_id external_id
  id ← uuid4
  let customer : Customer = record {
    id = id;
    merchant_id = merchant_id;
    external_id = external_id;
    email = email;
    created_at = now;
  } in
      (add_customer customer >> pure customer)

abbrev is_own : ℕ → ℕ → Customer → Bool
is_own merchant_id customer_id c = c.id == customer_id && c.merchant_id == merchant_id

abbrev or_missing : Option Customer → Exec Customer
or_missing none = raise customer_not_found
or_missing (some c) = pure c

unfoldable pub get_customer : ℕ → ℕ → Exec Customer
get_customer merchant_id customer_id =
    find_customer_by (is_own merchant_id customer_id) >>= or_missing

-- `limit` and `offset` are clamped; a negative one is clamped like 0.
unfoldable pub list_customers : ℕ → ℕ → ℕ → Exec (List Customer × ℕ)
list_customers merchant_id limit offset db =
    let rows = select (λ c. c.merchant_id == merchant_id) db.customers in
    (
      ok (
        take (max 1 (min limit 100)) (drop offset (order_desc (λ c. c.created_at) rows)),
        length rows,
      ),
      db,
    )

-- An argument of a PATCH: `_UNSET`, or a value, which may be `None`.
pub data Patch (A : Type 0) : Type 0 where
  unset : Patch A
  set : Option A → Patch A

-- A changed e-mail address is flushed before the next query.
unfoldable pub edit_email : Patch Text → Customer → Exec Customer
unfolding validate_email
edit_email unset c = pure c
edit_email (set email) c =
    let after = record c { email = email } in
    validate_email email >> put_customer after >> pure after

-- The test where the external id changes to one that is not `None`.
unfoldable pub check_other : ℕ → Option ℕ → Customer → Exec (Unit {0})
check_other merchant_id none c = pure tt
check_other merchant_id (some k) c = when (not (has_external_id k c.external_id)) (
    find_customer_by (is_other_known_as merchant_id k c.id) >>= λ existing.
    raise_if (is_some existing) customer_conflict)

unfoldable pub edit_external_id : ℕ → Patch ℕ → Customer → Exec Customer
unfolding check_other
edit_external_id merchant_id unset c = pure c
edit_external_id merchant_id (set external_id) c =
    let after = record c { external_id = external_id } in
    check_other merchant_id external_id c >> put_customer after >> pure after

unfoldable pub update_customer : ℕ → ℕ → Patch ℕ → Patch Text → Exec Customer
unfolding get_customer edit_email edit_external_id
update_customer merchant_id customer_id external_id email = do
  customer ← get_customer merchant_id customer_id
  customer ← edit_email email customer
  edit_external_id merchant_id external_id customer
