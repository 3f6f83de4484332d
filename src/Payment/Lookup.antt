-- ===== src/Payment/Lookup.antt =====
-- `find_invoice_by_subaddress_index`: it writes nothing and finds the invoice of the only address.
use ghostbill.Prelude.{ℕ, ◌≡◌, refl, [], ◌∷◌, Option, none, some, select}
use ghostbill.Model.{
  Db, Invoice, InvoiceAddress, ok, invoice_has_id, bind_run, scalar-some, scalar_one_or_none,
}
use ghostbill.Payment.{invoice_of_address, find_invoice_by_subaddress_index, at_subaddress}

found_keeps : (found : Option InvoiceAddress) (db : Db) → (invoice_of_address found db).1 ≡ db
found_keeps none db = refl
found_keeps (some a) db = refl

-- `find_invoice_by_subaddress_index` writes nothing.
pub find_invoice-keeps :
    (major minor : ℕ) (db : Db) → (find_invoice_by_subaddress_index major minor db).1 ≡ db
unfolding find_invoice_by_subaddress_index
find_invoice-keeps major minor db =
    bind_run (λ out. out.1 ≡ db)
      (λ d. (scalar_one_or_none (select (at_subaddress major minor) d.addresses), d))
      invoice_of_address db (λ e failed. refl) (λ found passed. found_keeps found db)

-- What it finds is the row of its id, at the only address with that index.
unfoldable pub Found : ℕ → ℕ → Db → Invoice → Type 0
Found major minor db invoice =
    (a : InvoiceAddress) × (select (at_subaddress major minor) db.addresses ≡ a ∷ [])
    × (select (invoice_has_id a.invoice_id) db.invoices ≡ invoice ∷ [])

Found-row :
    (major minor : ℕ) (db : Db) (invoice : Invoice) (found : Option InvoiceAddress)
    → scalar_one_or_none (select (at_subaddress major minor) db.addresses) ≡ ok found
    → (invoice_of_address found db).0 ≡ ok (some invoice)
    → Found major minor db invoice
unfolding Found
Found-row major minor db invoice none e h = cc
Found-row major minor db invoice (some a) e h = (a, scalar-some _ a e, scalar-some _ invoice h)

pub find_invoice-Found :
    (major minor : ℕ) (db : Db) (invoice : Invoice)
    → (find_invoice_by_subaddress_index major minor db).0 ≡ ok (some invoice)
    → Found major minor db invoice
unfolding find_invoice_by_subaddress_index
find_invoice-Found major minor db invoice =
    bind_run (λ out. out.0 ≡ ok (some invoice) → Found major minor db invoice)
      (λ d. (scalar_one_or_none (select (at_subaddress major minor) d.addresses), d))
      invoice_of_address db (λ e failed h. cc)
      (λ found passed h. Found-row major minor db invoice found passed h)
