-- ===== src/Detection.antt =====
-- The detection engine: one cycle of backend/app/tasks/detection_engine.py with the poll of
-- detection_confirmations.py and the heights of detection_helpers.py. What wallet-rpc answers and the
-- clock are arguments; an exception of the loop's body is caught where the source catches it. After a
-- write that the database refuses, the session serves nothing until a rollback: whether that happens
-- on the way is an argument of the cycle, which then commits nothing.
pub mod Checkpoint
pub mod Misses
use ghostbill.Prelude.{
  ℕ, zero, suc, ◌+◌, ◌-◌, Bool, true, false, Option, none, some, List, [], ◌∷◌, ltb, leb, ◌==◌,
  if◌then◌else◌, select, order_asc, get_or, String,
}
use ghostbill.Model.{
  InvoiceStatus, PaymentStatus, is_payment_status, Exec, pure, gets, ◌>>=◌, ◌>>◌, try_except, Db,
  Merchant, Invoice, Payment, find_invoice, find_merchant, seconds, raise, rpc_exception, Result,
  ok, err, database_error,
}
use ghostbill.Tor.{Network}
use ghostbill.Webhook.{dispatch_events}
use ghostbill.Payment.{
  Transfer, find_invoice_by_subaddress_index, find_payment_by_tx_hash, height_of, refreshed,
  update_confirmations,
}
use ghostbill.Payment.Service.{process_transfer, handle_reorg, recalculate_invoice_status}
use ghostbill.Payment.Events.{determine_webhook_events}
use ghostbill.Grace.Hook.{subscription_hook}

-- The constants of detection_helpers.py and detection_confirmations.py.
abbrev pub scan_interval : ℕ
scan_interval = 30

abbrev pub deep_scan_interval : ℕ
deep_scan_interval = 3600

abbrev pub deep_scan_blocks : ℕ
deep_scan_blocks = 100

abbrev pub reorg_buffer : ℕ
reorg_buffer = 10

abbrev pub tx_miss_orphan_threshold : ℕ
tx_miss_orphan_threshold = 3

-- The answer to `get_transfers`; an entry without `subaddr_index.minor` is `none`. After the retries the
-- wallet is `unreachable`; on an answer that is not JSON, or whose entries are not what the wallet
-- documents, `malformed`, another exception leaves `_scan_transfers`.
pub data TransfersReply : Type 0 where
  transfers : List (Option Transfer) → TransfersReply
  unreachable malformed : TransfersReply

-- The answer to `get_transfer_by_txid`: the confirmations and the height, nothing, or an error.
pub data TxReply : Type 0 where
  known : ℕ → ℕ → TxReply
  missing rpc_failure : TxReply

abbrev pub status_of_invoice : Option Invoice → Option InvoiceStatus
status_of_invoice none = none
status_of_invoice (some i) = some i.status

abbrev pub status_of_payment : Option Payment → Option PaymentStatus
status_of_payment none = none
status_of_payment (some p) = some p.status

-- `get_unconfirmed_payments`
unfoldable pub unconfirmed_payments : Db → List Payment
unconfirmed_payments db =
    order_asc (λ p. p.detected_at)
      (select (λ p. is_payment_status p.status PaymentStatus.detected) db.payments)

-- `_tx_miss_counts`, 0 for a hash that is not in it.
abbrev pub MissCounts : Type 0
MissCounts = ℕ → ℕ

abbrev pub set_misses : ℕ → ℕ → MissCounts → MissCounts
set_misses tx_hash count misses h = if tx_hash == h then count else misses h

-- What the loop keeps between cycles: the height in Redis and the memory of the process.
pub record EngineState : Type 0 where
  pub last_scanned : ℕ
  pub last_deep_scan : ℕ
  pub misses : MissCounts

-- The end of the session: the commit, if the database took every write, or the rollback.
abbrev pub in_session : {A : Type 0} → Bool → Db → Result A × Db → Result A × Db
in_session took_writes before (ok a, after) =
    if took_writes then (ok a, after) else (err database_error, before)
in_session took_writes before (err e, after) = (err e, before)

module _ (net : Network) (now : ℕ) where
  -- `if merchant: dispatch_events(...)`
  abbrev pub dispatch_for : List String → Invoice → Payment → Option Merchant → Exec (Unit {0})
  dispatch_for events invoice payment none = pure tt
  dispatch_for events invoice payment (some merchant) =
      dispatch_events net now events merchant invoice (some payment) >>= λ _. pure tt

  -- `if events:` the merchant is loaded and they are dispatched.
  abbrev pub announce : List String → Invoice → Payment → Exec (Unit {0})
  announce [] invoice payment = pure tt
  announce (e ∷ events) invoice payment =
      find_merchant invoice.merchant_id >>= dispatch_for (e ∷ events) invoice payment

  -- After a transfer: the invoice of the lookup is refreshed, and what has changed is announced.
  unfoldable pub announce_transfer :
      Option Invoice → Option PaymentStatus → Payment → Exec (Unit {0})
  announce_transfer none old_payment_status payment = pure tt
  announce_transfer (some invoice) old_payment_status payment = do
    current ← refreshed (← find_invoice invoice.id)
    announce (determine_webhook_events payment current invoice.status old_payment_status) current
        payment

  -- A payment counts as processed also where its announcement fails.
  abbrev pub count_transfer : Option Invoice → Option PaymentStatus → Option Payment → Exec ℕ
  count_transfer invoice old_payment_status none = pure 0
  count_transfer invoice old_payment_status (some payment) =
      try_except (announce_transfer invoice old_payment_status payment) (pure tt) >> pure 1

  -- The body of the loop over the transfers.
  unfoldable pub scan_one : Option Transfer → Exec ℕ
  unfolding announce_transfer
  scan_one none = pure 0
  scan_one (some tx) =
      try_except
        (find_invoice_by_subaddress_index tx.major tx.minor >>= λ invoice.
          find_payment_by_tx_hash tx.txid >>= λ existing.
          process_transfer (subscription_hook net now) now tx >>= λ payment.
          count_transfer invoice (status_of_payment existing) payment)
        (pure 0)

  unfoldable pub scan_each : List (Option Transfer) → Exec ℕ
  unfolding scan_one
  scan_each [] = pure 0
  scan_each (tx ∷ txs) = scan_one tx >>= λ one. scan_each txs >>= λ rest. pure (one + rest)

  -- `_scan_transfers`
  abbrev pub scan_transfers : TransfersReply → Exec ℕ
  scan_transfers unreachable = pure 0
  scan_transfers malformed = raise rpc_exception
  scan_transfers (transfers txs) = scan_each txs

  -- What follows a reorganisation, with the status of the invoice before it.
  unfoldable pub announce_reorg :
      Option InvoiceStatus → PaymentStatus → Payment → Option Invoice → Exec (Unit {0})
  announce_reorg before old_payment_status payment none = pure tt
  announce_reorg before old_payment_status payment (some invoice) =
      announce
        (determine_webhook_events (record payment { status = PaymentStatus.orphaned }) invoice
          (get_or before invoice.status) (some old_payment_status))
        invoice (record payment { status = PaymentStatus.orphaned })

  -- A transaction that is missing: the count grows, and at the threshold the payment is orphaned.
  unfoldable pub miss : MissCounts → Payment → Exec (MissCounts × ℕ)
  unfolding announce_reorg
  miss misses payment =
      let count = misses payment.tx_hash + 1 in
      let counted = set_misses payment.tx_hash count misses in
      if ltb count tx_miss_orphan_threshold
      then pure (counted, 0)
      else try_except
          (find_invoice payment.invoice_id >>= λ before.
            handle_reorg (subscription_hook net now) now payment
            >> (try_except
                  (find_invoice payment.invoice_id
                    >>= announce_reorg (status_of_invoice before) payment.status payment)
                  (pure tt)
                >> pure (set_misses payment.tx_hash 0 counted, 0)))
          (pure (counted, 0))

  -- What follows a payment that is newly confirmed.
  unfoldable pub settle_confirmed : PaymentStatus → Payment → Option Invoice → Exec (Unit {0})
  settle_confirmed old_payment_status payment none = pure tt
  settle_confirmed old_payment_status payment (some invoice) = do
    recalculate_invoice_status (subscription_hook net now) now invoice
    current ← refreshed (← find_invoice invoice.id)
    announce (determine_webhook_events payment current invoice.status (some old_payment_status))
        current payment

  abbrev pub count_confirmed : PaymentStatus → Payment × Bool → Exec ℕ
  count_confirmed old_payment_status (payment, transitioned) =
      if transitioned
      then try_except
          (find_invoice payment.invoice_id >>= settle_confirmed old_payment_status payment)
          (pure tt)
        >> pure 1
      else pure 0

  -- The body of the loop over the payments: the counts of misses, and 1 if the payment is counted.
  unfoldable pub check_payment : MissCounts → Payment → TxReply → Exec (MissCounts × ℕ)
  unfolding miss settle_confirmed
  check_payment misses payment rpc_failure = pure (misses, 0)
  check_payment misses payment missing = miss misses payment
  check_payment misses payment (known confirmations height) =
      try_except
        (update_confirmations now payment confirmations (height_of height) >>= λ updated.
          count_confirmed payment.status updated >>= λ one.
          pure (set_misses payment.tx_hash 0 misses, one))
        (pure (set_misses payment.tx_hash 0 misses, 0))

  unfoldable pub check_each : (ℕ → TxReply) → MissCounts → List Payment → Exec (MissCounts × ℕ)
  unfolding check_payment
  check_each by_txid misses [] = pure (misses, 0)
  check_each by_txid misses (p ∷ ps) = check_payment misses p (by_txid p.tx_hash) >>= λ one.
      check_each by_txid one.0 ps >>= λ rest. pure (rest.0, one.1 + rest.1)

  -- `update_unconfirmed`
  unfoldable pub update_unconfirmed : (ℕ → TxReply) → MissCounts → Exec (MissCounts × ℕ)
  unfolding check_each
  update_unconfirmed by_txid misses = gets unconfirmed_payments >>= check_each by_txid misses

  -- `elapsed >= DEEP_SCAN_INTERVAL`
  abbrev pub deep_scan_due : EngineState → Bool
  deep_scan_due s = leb (s.last_deep_scan + seconds deep_scan_interval) now

  -- From a few blocks below the checkpoint, if the chain has grown.
  abbrev pub regular_scan : (ℕ → ℕ → TransfersReply) → ℕ → EngineState → Exec ℕ
  regular_scan by_height current_height s =
      if ltb s.last_scanned current_height
      then scan_transfers (by_height (s.last_scanned - reorg_buffer) current_height)
      else pure 0

  abbrev pub deep_scan : (ℕ → ℕ → TransfersReply) → ℕ → EngineState → Exec ℕ
  deep_scan by_height current_height s =
      if deep_scan_due s
      then scan_transfers (by_height (current_height - deep_scan_blocks) current_height)
      else pure 0

  abbrev pub after_cycle : ℕ → EngineState → MissCounts × ℕ → EngineState
  after_cycle current_height s confirmed = record {
    last_scanned = if ltb s.last_scanned current_height then current_height else s.last_scanned;
    last_deep_scan = if deep_scan_due s then now else s.last_deep_scan;
    misses = confirmed.0;
  }

  -- The work of a cycle in its session.
  unfoldable pub cycle_work :
      (ℕ → ℕ → TransfersReply) → (ℕ → TxReply) → ℕ → EngineState → Exec EngineState
  unfolding scan_each update_unconfirmed
  cycle_work by_height by_txid current_height s =
      regular_scan by_height current_height s
      >> (deep_scan by_height current_height s
          >> (update_unconfirmed by_txid s.misses >>= λ confirmed.
              pure (after_cycle current_height s confirmed)))

  -- One cycle at a height of the chain, with the lease; a save that Redis refuses is left out.
  unfoldable pub detection_cycle :
      Bool → (ℕ → ℕ → TransfersReply) → (ℕ → TxReply) → ℕ → EngineState → Exec EngineState
  unfolding cycle_work
  detection_cycle took_writes by_height by_txid current_height s db =
      in_session took_writes db (cycle_work by_height by_txid current_height s db)
