-- ===== src/Gateway/Detect.antt =====
-- The detection engine on the invoices and payments.
use ghostbill.Prelude.{
  ℕ, Option, none, some, List, [], ◌∷◌, String, sym, subst, ltb, Bool-cases, inl, inr, ◌+◌,
}
use ghostbill.Prelude.Keys.{In}
use ghostbill.Model.{
  Db, Invoice, Merchant, Payment, InvoiceStatus, PaymentStatus, Exec, Result, ok, err, Keeps, aside,
  bind_run, try_except, pure, ◌>>=◌, find_invoice, ◌>>◌,
}
use ghostbill.Tor.{Network}
use ghostbill.Webhook.{dispatch_events}
use ghostbill.Webhook.Queueing.{dispatch_events-IsKept}
use ghostbill.Payment.{
  Transfer, refreshed, find_invoice_by_subaddress_index, find_payment_by_tx_hash,
}
use ghostbill.Payment.Service.{process_transfer, handle_reorg}
use ghostbill.Payment.Agreement.{IsConsistent}
use ghostbill.Payment.Transfers.{PaysOneInvoice, process_transfer-IsConsistent}
use ghostbill.Payment.Lookup.{find_invoice-keeps}
use ghostbill.Payment.Reorgs.{handle_reorg-IsConsistent}
use ghostbill.Grace.Hook.{subscription_hook}
use ghostbill.Detection.{
  dispatch_for, announce, announce_transfer, count_transfer, scan_one, announce_reorg, miss,
  MissCounts, status_of_payment, status_of_invoice, set_misses, tx_miss_orphan_threshold,
}
use ghostbill.Gateway.Billing.{asides, aside-Consistent}

module _ (net : Network) (now : ℕ) where
  dispatch_events-Aside :
      (events : List String) (merchant : Merchant) (invoice : Invoice) (payment : Option Payment)
      → Keeps aside (dispatch_events net now events merchant invoice payment)
  dispatch_events-Aside events merchant invoice payment = record {
    run = λ db.
        let k = dispatch_events-IsKept net now merchant events invoice payment db in
        record {
          invoices = k.invoices;
          payments = k.payments;
          addresses = k.addresses;
          next_id = k.next_id;
        };
  }

  dispatch_for-Aside :
      (events : List String) (invoice : Invoice) (payment : Payment) (found : Option Merchant)
      → Keeps aside (dispatch_for net now events invoice payment found)
  dispatch_for-Aside events invoice payment none = search asides
  dispatch_for-Aside events invoice payment (some merchant) = search (asides, dispatch_events-Aside)

  announce-Aside :
      (events : List String) (invoice : Invoice) (payment : Payment)
      → Keeps aside (announce net now events invoice payment)
  announce-Aside [] invoice payment = search asides
  announce-Aside (e ∷ events) invoice payment = search (asides, dispatch_for-Aside)

  refreshed-Aside : (found : Option Invoice) → Keeps aside (refreshed found)
  refreshed-Aside none = search asides
  refreshed-Aside (some invoice) = search asides

  announce_transfer-Aside :
      (found : Option Invoice) (old_payment_status : Option PaymentStatus) (payment : Payment)
      → Keeps aside (announce_transfer net now found old_payment_status payment)
  unfolding announce_transfer
  announce_transfer-Aside none old_payment_status payment = search asides
  announce_transfer-Aside (some invoice) old_payment_status payment =
      search (asides, refreshed-Aside, announce-Aside)

  count_transfer-Aside :
      (found : Option Invoice) (old_payment_status : Option PaymentStatus) (p : Option Payment)
      → Keeps aside (count_transfer net now found old_payment_status p)
  count_transfer-Aside found old_payment_status none = search asides
  count_transfer-Aside found old_payment_status (some payment) =
      search (asides, announce_transfer-Aside)

  announce_reorg-Aside :
      (before : Option InvoiceStatus) (old : PaymentStatus) (payment : Payment)
      (found : Option Invoice)
      → Keeps aside (announce_reorg net now before old payment found)
  unfolding announce_reorg
  announce_reorg-Aside before old payment none = search asides
  announce_reorg-Aside before old payment (some invoice) = search (asides, announce-Aside)

  quiet :
      {A : Type 0} (r : Result A) (a : A) (db db' : Db)
      → IsConsistent db'
      → IsConsistent (try_except (λ _. (r, db')) (pure a) db).1
  quiet (ok x) a db db' c = c
  quiet (err e) a db db' c = c

  -- The parts of a scan before and after the payment is recorded.
  abbrev recorded : Transfer → Option Invoice → Option Payment → Exec ℕ
  recorded tx invoice existing = process_transfer (subscription_hook net now) now tx >>= λ payment.
      count_transfer net now invoice (status_of_payment existing) payment

  recorded-IsConsistent :
      (tx : Transfer) (invoice : Option Invoice) (existing : Option Payment) (db : Db)
      → PaysOneInvoice tx db
      → IsConsistent db
      → IsConsistent (recorded tx invoice existing db).1
  recorded-IsConsistent tx invoice existing db single c =
      let kept = process_transfer-IsConsistent (subscription_hook net now) now tx db c single in
      bind_run (λ out. IsConsistent out.1) (process_transfer (subscription_hook net now) now tx)
        (λ payment. count_transfer net now invoice (status_of_payment existing) payment) db
        (λ e failed. kept)
        (λ payment passed.
          (aside-Consistent (count_transfer-Aside invoice (status_of_payment existing) payment)).run
            (process_transfer (subscription_hook net now) now tx db).1 kept)

  abbrev scanned : Transfer → Exec ℕ
  scanned tx = find_invoice_by_subaddress_index tx.major tx.minor >>= λ invoice.
      find_payment_by_tx_hash tx.txid >>= λ existing. recorded tx invoice existing

  -- A transfer that is scanned, with what is announced of it.
  pub scan_one-IsConsistent :
      (tx : Transfer) (db : Db)
      → PaysOneInvoice tx db
      → IsConsistent db
      → IsConsistent (scan_one net now (some tx) db).1
  unfolding scan_one find_payment_by_tx_hash find_invoice_by_subaddress_index
  scan_one-IsConsistent tx db single c =
      let find = find_invoice_by_subaddress_index tx.major tx.minor in
      let same = find_invoice-keeps tx.major tx.minor db in
      let known : (invoice : Option Invoice)
          → IsConsistent ((find_payment_by_tx_hash tx.txid >>= recorded tx invoice) db).1 =
        λ invoice.
          bind_run (λ out. IsConsistent out.1) (find_payment_by_tx_hash tx.txid)
            (recorded tx invoice) db (λ e failed. c)
            (λ existing passed. recorded-IsConsistent tx invoice existing db single c) in
      let inner : IsConsistent (scanned tx db).1 =
        bind_run (λ out. IsConsistent out.1) find
          (λ invoice. find_payment_by_tx_hash tx.txid >>= recorded tx invoice) db
          (λ e failed. subst IsConsistent (sym same) c)
          (λ invoice passed.
            subst
              (λ d. IsConsistent ((find_payment_by_tx_hash tx.txid >>= recorded tx invoice) d).1)
              (sym same) (known invoice)) in
      quiet (scanned tx db).0 0 db (scanned tx db).1 inner

  abbrev orphaned : MissCounts → Payment → Option Invoice → Exec (MissCounts × ℕ)
  orphaned counted payment before =
      handle_reorg (subscription_hook net now) now payment
      >> (try_except
            (find_invoice payment.invoice_id
              >>= announce_reorg net now (status_of_invoice before) payment.status payment)
            (pure tt)
          >> pure (set_misses payment.tx_hash 0 counted, 0))

  orphaned-IsConsistent :
      (counted : MissCounts) (payment : Payment) (before : Option Invoice) (db : Db)
      → In payment db.payments
      → IsConsistent db
      → IsConsistent (orphaned counted payment before db).1
  orphaned-IsConsistent counted payment before db there c =
      let kept = handle_reorg-IsConsistent (subscription_hook net now) now payment db there c in
      let rest : Exec (MissCounts × ℕ) =
        try_except
          (find_invoice payment.invoice_id
            >>= announce_reorg net now (status_of_invoice before) payment.status payment)
          (pure tt)
        >> pure (set_misses payment.tx_hash 0 counted, 0) in
      let aside_rest : Keeps aside rest = search (asides, announce_reorg-Aside) in
      bind_run (λ out. IsConsistent out.1) (handle_reorg (subscription_hook net now) now payment)
        (λ _. rest) db (λ e failed. kept)
        (λ _ passed.
          (aside-Consistent aside_rest).run
            (handle_reorg (subscription_hook net now) now payment db).1 kept)

  -- A recorded payment whose transaction is missing, at whatever count.
  pub miss-IsConsistent :
      (misses : MissCounts) (payment : Payment) (db : Db)
      → In payment db.payments
      → IsConsistent db
      → IsConsistent (miss net now misses payment db).1
  unfolding miss
  miss-IsConsistent misses payment db there c =
      let count = misses payment.tx_hash + 1 in
      let counted = set_misses payment.tx_hash count misses in
      elim (Bool-cases (ltb count tx_miss_orphan_threshold)) [
        | inl few ↦ rw few c
        | inr many ↦
            let inner : IsConsistent
                ((find_invoice payment.invoice_id >>= orphaned counted payment) db).1 =
              bind_run (λ out. IsConsistent out.1) (find_invoice payment.invoice_id)
                (orphaned counted payment) db (λ e failed. c)
                (λ before passed. orphaned-IsConsistent counted payment before db there c) in
            rw many (
              quiet ((find_invoice payment.invoice_id >>= orphaned counted payment) db).0
                (counted, 0) db
                ((find_invoice payment.invoice_id >>= orphaned counted payment) db).1 inner)
      ]
