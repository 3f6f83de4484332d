-- ===== src/Tests/Customers.antt =====
-- Customers: the theorems on their calls and on e-mail addresses, applied.
use ghostbill.Prelude.{◌≡◌, ◌≢◌, refl, subst, false, none, some, [], ◌∷◌, ◌++◌, arith}
use ghostbill.Prelude.Keys.{In, head, tail}
use ghostbill.Model.{Db, Customer, Text, err, customer_conflict}
use ghostbill.Customer.{unset, set, create_customer, email_re, collides}
use ghostbill.Customer.Email.{IsAddress, email_re_iff}
use ghostbill.Customer.Isolation.{IsTidy, KeepsTo}
use ghostbill.Customer.Calls.{create_customer_lem, new_customer}
use ghostbill.Customer.Changes.{update, run, run-KeepsTo}
use ghostbill.Tests.{tables}

-- a@b.c, and the same with a line break
abbrev address : Text
address = 97 ∷ 64 ∷ 98 ∷ 46 ∷ 99 ∷ []

abbrev broken : Text
broken = address ++ 10 ∷ []

abbrev alice : Customer
alice = new_customer 2 7 1 (some 40) (some address)

abbrev bob : Customer
bob = new_customer 3 8 9 (some 40) none

abbrev clients : Db
clients = record tables { customers = alice ∷ bob ∷ [] }

clients-IsTidy : IsTidy clients.customers clients.next_id
clients-IsTidy = record {
  ids = ((λ e. omega arith, tt), (tt, tt));
  old = (omega arith, (omega arith, tt));
  known = apart;
}
  where
    apart :
        (a b : Customer)
        → In a clients.customers
        → In b clients.customers
        → a.id ≢ b.id
        → collides a b ≡ false
    apart a b (head e) (head f) ne = absurd (ne (cc (e, f)))
    apart a b (tail (head e)) (tail (head f)) ne = absurd (ne (cc (e, f)))
    apart a b (head e) (tail (head f)) ne =
        subst (λ z. collides z b ≡ false) e (subst (λ w. collides alice w ≡ false) f refl)
    apart a b (tail (head e)) (head f) ne =
        subst (λ z. collides z b ≡ false) e (subst (λ w. collides bob w ≡ false) f refl)
    apart a b (tail (tail m)) j ne = elim m [ ]
    apart a b (head e) (tail (tail m)) ne = elim m [ ]
    apart a b (tail (head e)) (tail (tail m)) ne = elim m [ ]

create_customer_lem_example :
    create_customer 50 1 (some 40) none clients ≡ (err customer_conflict, clients)
create_customer_lem_example = create_customer_lem 50 1 (some 40) none clients clients-IsTidy

run-KeepsTo_example : KeepsTo 1 (bob ∷ []) (run 1 (update 2 (set (some 41)) unset) clients).1
run-KeepsTo_example = run-KeepsTo 1 (update 2 (set (some 41)) unset) clients clients-IsTidy

email_re_iff_example : IsAddress broken
unfolding email_re
email_re_iff_example = (email_re_iff broken).0 refl
