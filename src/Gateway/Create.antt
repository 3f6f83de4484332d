-- ===== src/Gateway/Create.antt =====
-- `create_invoice` on the tables.
use ghostbill.Prelude.{
  ℕ, suc, ◌+◌, ◌≤◌, ◌<◌, ◌≡◌, refl, ◌⊎◌, inl, inr, true, false, Bool-cases, Option, none, some,
  List, [], ◌∷◌, ◌++◌, All, arith, select, any, sym, subst, if◌then◌else◌, ◌==◌, leb,
}
use ghostbill.Prelude.Int.{ℤ, pos, negsuc}
use ghostbill.Prelude.Keys.{All-map}
use ghostbill.Model.{
  Db, Invoice, InvoiceAddress, InvoiceStatus, Merchant, Result, ok, err, Error, seconds, Decimal,
  same_address, AuditLog, wallet_unavailable, database_error, fits_columns,
}
use ghostbill.Money.{xmr_to_atomic, parse_amount_xmr}
use ghostbill.Invoice.{
  InvoiceRequest, create_invoice, draft_invoice, attach_address, validate_expires_in,
  fiat_amount_of, currency_of,
}
use ghostbill.Invoice.Wallet.{RpcReply, created, connection_error, rpc_error}
use ghostbill.Payment.Agreement.{IsConsistent}
use ghostbill.Gateway.Rows.{added-IsConsistent, later-IsConsistent, with_invoices}

-- What the validation lets through.
pub record IsDraft (now : ℕ) (merchant : Merchant) (request : InvoiceRequest) (id : ℕ) (i : Invoice)
    : Type 0 where
  pub same_id : i.id ≡ id
  pub owner : i.merchant_id ≡ merchant.id
  pub waiting : i.status ≡ InvoiceStatus.pending
  pub unpaid : i.paid_at ≡ none
  pub positive : 0 < i.amount_atomic
  pub parsed : parse_amount_xmr request.amount_xmr_raw ≡ ok i.amount_xmr
  pub converted : xmr_to_atomic i.amount_xmr ≡ ok (pos i.amount_atomic)
  pub earliest : now + seconds 600 ≤ i.expires_at
  pub latest : i.expires_at ≤ now + seconds 2592000

-- An accepted lifetime is from ten minutes to thirty days.
validate_expires_in_lem :
    (e : Option ℤ) (s : ℕ) → validate_expires_in e ≡ ok s → (600 ≤ s) × (s ≤ 2592000)
unfolding validate_expires_in
validate_expires_in_lem none s h = ground arith
validate_expires_in_lem (some (pos n)) s h = ground arith
validate_expires_in_lem (some (negsuc n)) s h = ground arith

Result-cases {ℓ} :
    {A : Type ℓ} (r : Result A) → ((e : Error) × (r ≡ err e)) ⊎ ((a : A) × (r ≡ ok a))
Result-cases (ok a) = inr (a, refl)
Result-cases (err e) = inl (e, refl)

-- The row that the validation builds.
abbrev row_of : ℕ → Merchant → InvoiceRequest → ℕ → Decimal → ℕ → ℕ → Option Decimal → Invoice
row_of now merchant request id amount lifetime n fiat = record {
  id = id;
  merchant_id = merchant.id;
  amount_atomic = n;
  amount_xmr = amount;
  fiat_currency = currency_of request.fiat_currency request.fiat_rate;
  fiat_amount = fiat;
  fiat_rate = request.fiat_rate;
  status = InvoiceStatus.pending;
  description = request.description;
  metadata_json = request.metadata;
  expires_at = now + seconds lifetime;
  paid_at = none;
  created_at = now;
}

module _ (now : ℕ) (merchant : Merchant) (request : InvoiceRequest) (id : ℕ) (i : Invoice)
    (amount : Decimal) (lifetime n : ℕ) where
  drafted :
      parse_amount_xmr request.amount_xmr_raw ≡ ok amount
      → validate_expires_in request.expires_in ≡ ok lifetime
      → xmr_to_atomic amount ≡ ok (pos n)
      → draft_invoice now merchant request id ≡ ok i
      → (0 < n)
        × ((fiat : Option Decimal) × (row_of now merchant request id amount lifetime n fiat ≡ i))
  unfolding draft_invoice
  drafted parsed valid converted h = elim (Result-cases (fiat_amount_of amount request.fiat_rate)) [
    | inl (e, failed) ↦ ground (arith, parsed, valid, converted, failed)
    | inr (fiat, priced) ↦ elim (Bool-cases (leb n 0)) [
      | inl empty ↦ ground (arith, parsed, valid, converted, priced, empty)
      | inr positive ↦
          let same : ok (row_of now merchant request id amount lifetime n fiat) ≡ ok i =
            ground (arith, parsed, valid, converted, priced, positive) in
          (ground arith, (fiat, cc))
    ]
  ]

  drafted-IsDraft :
      parse_amount_xmr request.amount_xmr_raw ≡ ok amount
      → xmr_to_atomic amount ≡ ok (pos n)
      → (600 ≤ lifetime) × (lifetime ≤ 2592000)
      → 0 < n
      → (fiat : Option Decimal) → row_of now merchant request id amount lifetime n fiat ≡ i
      → IsDraft now merchant request id i
  drafted-IsDraft parsed converted (low, high) above fiat same =
      subst (IsDraft now merchant request id) same (record {
        same_id = refl;
        owner = refl;
        waiting = refl;
        unpaid = refl;
        positive = above;
        parsed = parsed;
        converted = converted;
        earliest = omega arith;
        latest = omega arith;
      })

-- An invoice that passes the validation is pending, asks for at least one piconero, the converted
-- amount, and expires between ten minutes and thirty days from now.
pub draft_invoice-IsDraft :
    (now : ℕ) (merchant : Merchant) (request : InvoiceRequest) (id : ℕ) (i : Invoice)
    → draft_invoice now merchant request id ≡ ok i
    → IsDraft now merchant request id i
unfolding draft_invoice
draft_invoice-IsDraft now merchant request id i h =
    elim (Result-cases (parse_amount_xmr request.amount_xmr_raw)) [
      | inl (e, failed) ↦ ground (arith, failed)
      | inr (amount, parsed) ↦ elim (Result-cases (validate_expires_in request.expires_in)) [
        | inl (e, failed) ↦ ground (arith, parsed, failed)
        | inr (lifetime, valid) ↦ elim (Result-cases (xmr_to_atomic amount)) [
          | inl (e, failed) ↦ ground (arith, parsed, valid, failed)
          | inr (negsuc n, negative) ↦ ground (arith, parsed, valid, negative)
          | inr (pos n, converted) ↦
              let (above, (fiat, same)) =
                drafted now merchant request id i amount lifetime n parsed valid converted h in
              drafted-IsDraft now merchant request id i amount lifetime n parsed converted
                (validate_expires_in_lem request.expires_in lifetime valid) above fiat same
        ]
      ]
    ]

others_stay :
    (k : ℕ) (is : List Invoice) (i : Invoice)
    → i.id ≡ k
    → All (λ x. x.id < k) is
    → select (λ x. if x.id == k then false else true) (is ++ i ∷ []) ≡ is
others_stay k [] i e h = ground arith
others_stay k (x ∷ is) i e (h, hs) =
    let rest = others_stay k is i e hs in
    elim (Bool-cases (x.id == k)) [
      | inl same ↦ absurd (ground arith)
      | inr other ↦ rw other (cc rest)
    ]

-- The tables after the row is added.
abbrev pub with_draft : Db → Invoice → Db
with_draft db i =
    with_invoices db (suc db.next_id) (db.invoices ++ i ∷ []) db.addresses db.audit_log

module _ (wallet : ℕ → RpcReply) (now : ℕ) (merchant : Merchant) (request : InvoiceRequest)
    (db : Db) where
  pub create_drafted :
      (i : Invoice)
      → draft_invoice now merchant request db.next_id ≡ ok i
      → fits_columns i ≡ true
      → create_invoice wallet now merchant request db
        ≡ attach_address i (wallet i.id) (with_draft db i)
  unfolding create_invoice
  create_drafted i drafted fits = rw (drafted, fits) refl

  -- A row that the columns do not take.
  create_oversized :
      (i : Invoice)
      → draft_invoice now merchant request db.next_id ≡ ok i
      → fits_columns i ≡ false
      → create_invoice wallet now merchant request db
        ≡ (err database_error, record db { next_id = suc db.next_id })
  unfolding create_invoice
  create_oversized i drafted oversized = rw (drafted, oversized) refl

  create_refused :
      (e : Error)
      → draft_invoice now merchant request db.next_id ≡ err e
      → create_invoice wallet now merchant request db ≡ (err e, db)
  unfolding create_invoice
  create_refused e refused = rw refused refl

module _ (merchant : Merchant) (request : InvoiceRequest) (now : ℕ) (db : Db) (c : IsConsistent db)
    (i : Invoice) (d : IsDraft now merchant request db.next_id i) where
  without_draft :
      select (λ x. if x.id == i.id then false else true) (db.invoices ++ i ∷ []) ≡ db.invoices
  without_draft = others_stay i.id db.invoices i refl (
      All-map (λ x. x.id < db.next_id) (λ x. x.id < i.id) db.invoices
        (λ x h. omega (arith, d.same_id)) c.tidy.invoices_old)

  deleted-IsConsistent : IsConsistent (record (with_draft db i) {
    invoices = select (λ x. if x.id == i.id then false else true) (db.invoices ++ i ∷ []);
  })
  deleted-IsConsistent =
      rw without_draft
        (later-IsConsistent db db.addresses db.audit_log c (suc db.next_id) (omega arith))

  attached-IsConsistent :
      (reply : RpcReply) → IsConsistent (attach_address i reply (with_draft db i)).1
  unfolding attach_address
  attached-IsConsistent connection_error = deleted-IsConsistent
  attached-IsConsistent rpc_error = deleted-IsConsistent
  attached-IsConsistent (created subaddress index) =
      let a : InvoiceAddress = record {
        invoice_id = i.id;
        address = subaddress;
        address_index = index;
        account_index = 0;
      } in
      elim (Bool-cases (any (same_address a) db.addresses)) [
        | inl taken ↦
            let e : (attach_address i (created subaddress index) (with_draft db i)).1
                ≡ with_draft db i =
              ground (arith, taken) in
            subst IsConsistent (sym e)
              (added-IsConsistent db db.addresses db.audit_log c i d.same_id d.positive d.waiting)
        | inr free ↦
            let log : List AuditLog =
              db.audit_log
              ++ record {
                merchant_id = some i.merchant_id;
                action = "invoice.created";
                entity_id = some i.id;
                exception = false;
              }
                ∷ [] in
            let e : (attach_address i (created subaddress index) (with_draft db i)).1
                ≡ with_invoices db (suc db.next_id) (db.invoices ++ i ∷ []) (db.addresses ++ a ∷ [])
                    log =
              ground (arith, free) in
            subst IsConsistent (sym e) (
              added-IsConsistent db (db.addresses ++ a ∷ []) log c i d.same_id d.positive d.waiting)
      ]

module _ (wallet : ℕ → RpcReply) (now : ℕ) (merchant : Merchant) (request : InvoiceRequest)
    (db : Db) where
  created-IsConsistent :
      (r : Result Invoice)
      → draft_invoice now merchant request db.next_id ≡ r
      → IsConsistent db
      → IsConsistent (create_invoice wallet now merchant request db).1
  created-IsConsistent (err e) h c =
      subst (λ o. IsConsistent o.1) (sym (create_refused wallet now merchant request db e h)) c
  created-IsConsistent (ok i) h c = elim (Bool-cases (fits_columns i)) [
    | inl fits ↦
        subst (λ o. IsConsistent o.1) (sym (create_drafted wallet now merchant request db i h fits))
          (attached-IsConsistent merchant request now db c i
            (draft_invoice-IsDraft now merchant request db.next_id i h) (wallet i.id))
    | inr oversized ↦
        subst (λ o. IsConsistent o.1)
          (sym (create_oversized wallet now merchant request db i h oversized))
          (later-IsConsistent db db.addresses db.audit_log c (suc db.next_id) (omega arith))
  ]

  -- A request for an invoice keeps the status of every invoice true to its payments, however it ends.
  pub create_invoice-IsConsistent :
      IsConsistent db → IsConsistent (create_invoice wallet now merchant request db).1
  create_invoice-IsConsistent c = created-IsConsistent _ refl c

  -- From tables that keep the invariant: where the wallet does not answer, a request that passes the
  -- validation and whose amounts the columns take, which ends below a million XMR, ends in that error,
  -- and the tables of invoices, addresses and payments are as they were.
  pub create_invoice_unavailable :
      (i : Invoice)
      → IsConsistent db
      → draft_invoice now merchant request db.next_id ≡ ok i
      → fits_columns i ≡ true
      → (wallet i.id ≡ connection_error) ⊎ (wallet i.id ≡ rpc_error)
      → let out = create_invoice wallet now merchant request db in
        (out.0 ≡ err wallet_unavailable)
        × (out.1.invoices ≡ db.invoices)
        × (out.1.addresses ≡ db.addresses)
        × (out.1.payments ≡ db.payments)
  unfolding attach_address
  create_invoice_unavailable i c h fits silent =
      let e = create_drafted wallet now merchant request db i h fits in
      let gone =
        without_draft merchant request now db c i
          (draft_invoice-IsDraft now merchant request db.next_id i h) in
      elim silent [
        | inl lost ↦ rw (e, lost) (refl, gone, refl, refl)
        | inr failed ↦ rw (e, failed) (refl, gone, refl, refl)
      ]
