-- ===== src/Detection/Checkpoint.antt =====
-- The cycle of `detection_engine_loop`: how it ends and where the next one goes on.
use ghostbill.Prelude.{
  ℕ, ltb, ◌-◌, ◌+◌, ◌≡◌, ◌≢◌, ◌⊎◌, inl, inr, refl, sym, subst, Bool, true, false, Option, none,
  some, List, [], ◌∷◌, max, if◌then◌else◌,
}
use ghostbill.Model.{
  Db, Payment, Exec, Result, ok, err, pure, gets, ◌>>=◌, ◌>>◌, try_except, database_error,
}
use ghostbill.Tor.{Network}
use ghostbill.Payment.{Transfer}
use ghostbill.Detection.{
  deep_scan_due, deep_scan_blocks, reorg_buffer, detection_cycle, cycle_work, in_session,
  regular_scan, deep_scan, after_cycle, scan_one, scan_each, scan_transfers, TransfersReply,
  transfers, unreachable, malformed, TxReply, known, missing, rpc_failure, miss, check_payment,
  check_each, update_unconfirmed, MissCounts, EngineState,
}

-- The method raises nothing.
record Returns {A : Type 0} (m : Exec A) : Type 0 where
  run : (db : Db) → (a : A) × ((m db).0 ≡ ok a)

module _ {A : Type 0} where
  pure-Returns : {a : A} → Returns (pure a)
  pure-Returns {a} = record { run = λ db. (a, refl) }

  gets-Returns : {f : Db → A} → Returns (gets f)
  gets-Returns {f} = record { run = λ db. (f db, refl) }

  if-Returns : (b : Bool) {m k : Exec A} → Returns m → Returns k → Returns (if b then m else k)
  if-Returns true hm hk = hm
  if-Returns false hm hk = hk

  chained :
      {B : Type 0} (r : Result A) (a : A) (f : A → Exec B) (db : Db)
      → r ≡ ok a
      → Returns (f a)
      → (b : B) × ((◌>>=◌ (λ _. (r, db)) f db).0 ≡ ok b)
  chained r a f db e rest =
      subst (λ x. (b : _) × ((◌>>=◌ (λ _. (x, db)) f db).0 ≡ ok b)) (sym e) (rest.run db)

  bind-Returns :
      {B : Type 0} {m : Exec A} {f : A → Exec B}
      → Returns m
      → ((a : A) → Returns (f a))
      → Returns (m >>= f)
  bind-Returns {m = m} {f = f} first rest = record {
    run = λ db. let (a, e) = first.run db in chained (m db).0 a f (m db).1 e (rest a);
  }

  handled :
      (r : Result A) (handler : Exec A) (db db' : Db)
      → Returns handler
      → (a : A) × ((try_except (λ _. (r, db')) handler db).0 ≡ ok a)
  handled (ok a) handler db db' h = (a, refl)
  handled (err e) handler db db' h = h.run db'

  try_except-Returns :
      (m : Exec A) {handler : Exec A} → Returns handler → Returns (try_except m handler)
  try_except-Returns m {handler = handler} h = record {
    run = λ db. handled (m db).0 handler db (m db).1 h;
  }

-- It raises nothing and returns a value with a property.
record Yields {A : Type 0} (P : A → Type 0) (m : Exec A) : Type 0 where
  run : (db : Db) → (a : A) × ((m db).0 ≡ ok a) × P a

then_Yields :
    {A B : Type 0} (P : B → Type 0) (m : Exec A) (f : A → Exec B)
    → Returns m
    → ((a : A) → Yields P (f a))
    → Yields P (m >>= f)
then_Yields P m f first rest = record {
  run = λ db.
      let (a, e) = first.run db in
      subst (λ x. (b : _) × ((◌>>=◌ (λ _. (x, (m db).1)) f db).0 ≡ ok b) × P b) (sym e)
        ((rest a).run (m db).1);
}

ruleset returns = (bind-Returns, if-Returns, pure-Returns, gets-Returns, try_except-Returns)

module _ (net : Network) (now : ℕ) where
  scan_one-Returns : (tx : Option Transfer) → Returns (scan_one net now tx)
  unfolding scan_one
  scan_one-Returns none = search returns
  scan_one-Returns (some tx) = search returns

  scan_each-Returns : (txs : List (Option Transfer)) → Returns (scan_each net now txs)
  unfolding scan_each
  scan_each-Returns [] = pure-Returns
  scan_each-Returns (tx ∷ txs) =
      bind-Returns {m = scan_one net now tx} (scan_one-Returns tx) (λ one.
        bind-Returns {m = scan_each net now txs} {f = λ rest. pure (one + rest)}
          (scan_each-Returns txs) (λ rest. pure-Returns))

  scan_transfers-Returns :
      (reply : TransfersReply) → reply ≢ malformed → Returns (scan_transfers net now reply)
  scan_transfers-Returns unreachable readable = search returns
  scan_transfers-Returns malformed readable = absurd (readable refl)
  scan_transfers-Returns (transfers txs) readable = scan_each-Returns txs

  miss-Returns : (misses : MissCounts) (p : Payment) → Returns (miss net now misses p)
  unfolding miss
  miss-Returns misses p = search returns

  check_payment-Returns :
      (misses : MissCounts) (p : Payment) (reply : TxReply)
      → Returns (check_payment net now misses p reply)
  unfolding check_payment
  check_payment-Returns misses p rpc_failure = search returns
  check_payment-Returns misses p missing = miss-Returns misses p
  check_payment-Returns misses p (known confirmations height) = search returns

  check_each-Returns :
      (by_txid : ℕ → TxReply) (misses : MissCounts) (ps : List Payment)
      → Returns (check_each net now by_txid misses ps)
  unfolding check_each
  check_each-Returns by_txid misses [] = pure-Returns
  check_each-Returns by_txid misses (p ∷ ps) =
      bind-Returns {m = check_payment net now misses p (by_txid p.tx_hash)}
        (check_payment-Returns misses p (by_txid p.tx_hash))
        (λ one.
          bind-Returns {m = check_each net now by_txid one.0 ps}
            {f = λ rest. pure (rest.0, one.1 + rest.1)} (check_each-Returns by_txid one.0 ps)
            (λ rest. pure-Returns))

  update_unconfirmed-Returns :
      (by_txid : ℕ → TxReply) (misses : MissCounts)
      → Returns (update_unconfirmed net now by_txid misses)
  unfolding update_unconfirmed
  update_unconfirmed-Returns by_txid misses = search (check_each-Returns, returns)

  module _ (by_height : ℕ → ℕ → TransfersReply) (by_txid : ℕ → TxReply) (current_height : ℕ)
      (s : EngineState) (readable : (low high : ℕ) → by_height low high ≢ malformed) where
    abbrev MovedOn : EngineState → Type 0
    MovedOn after = after.last_scanned ≡ max s.last_scanned current_height

    abbrev confirm : Exec EngineState
    confirm = update_unconfirmed net now by_txid s.misses >>= λ confirmed.
        pure (after_cycle net now current_height s confirmed)

    confirm-Yields : Yields MovedOn confirm
    confirm-Yields =
        then_Yields MovedOn (update_unconfirmed net now by_txid s.misses)
          (λ confirmed. pure (after_cycle net now current_height s confirmed))
          (update_unconfirmed-Returns by_txid s.misses)
          (λ confirmed. record {
            run = λ d. (after_cycle net now current_height s confirmed, refl, refl);
          })

    deep_scan-Returns : Returns (deep_scan net now by_height current_height s)
    deep_scan-Returns =
        if-Returns (deep_scan_due net now s)
          (scan_transfers-Returns (by_height (current_height - deep_scan_blocks) current_height)
            (readable _ _))
          pure-Returns

    regular_scan-Returns : Returns (regular_scan net now by_height current_height s)
    regular_scan-Returns =
        if-Returns (ltb s.last_scanned current_height)
          (scan_transfers-Returns (by_height (s.last_scanned - reorg_buffer) current_height)
            (readable _ _))
          pure-Returns

    work-Yields : Yields MovedOn (cycle_work net now by_height by_txid current_height s)
    unfolding cycle_work
    work-Yields =
        then_Yields MovedOn (regular_scan net now by_height current_height s)
          (λ _. deep_scan net now by_height current_height s >> confirm) regular_scan-Returns
          (λ _.
            then_Yields MovedOn (deep_scan net now by_height current_height s) (λ _. confirm)
              deep_scan-Returns (λ _. confirm-Yields))

  session_end :
      (took_writes : Bool) (before : Db) (out : Result EngineState × Db) (after : EngineState)
      → out.0 ≡ ok after
      → ((took_writes ≡ true) × ((in_session took_writes before out).0 ≡ ok after))
        ⊎ ((took_writes ≡ false)
            × (in_session took_writes before out ≡ (err database_error, before)))
  session_end true before (ok a, d) after e = inl (refl, e)
  session_end false before (ok a, d) after e = inr (refl, refl)
  session_end took_writes before (err x, d) after e = cc

  -- While every answer of the wallet to the question for transfers can be read, a cycle of the engine in
  -- which the database takes every write ends normally, whatever else the wallet answers and whatever
  -- the services raise, and then the height that it goes on from is that of the chain, if this has
  -- grown: also where the wallet did not answer the question for the transfers, so that no transfer was
  -- read. A cycle in which the database refuses a write ends in an error with nothing committed.
  pub detection_cycle_lem :
      (took_writes : Bool) (by_height : ℕ → ℕ → TransfersReply) (by_txid : ℕ → TxReply)
      (current_height : ℕ) (s : EngineState) (db : Db)
      → ((low high : ℕ) → by_height low high ≢ malformed)
      → let out = detection_cycle net now took_writes by_height by_txid current_height s db in
        ((took_writes ≡ true)
          × (after : EngineState) × (out.0 ≡ ok after)
          × (after.last_scanned ≡ max s.last_scanned current_height))
        ⊎ ((took_writes ≡ false) × (out ≡ (err database_error, db)))
  unfolding detection_cycle
  detection_cycle_lem took_writes by_height by_txid current_height s db readable =
      let (after, e, moved) = (work-Yields by_height by_txid current_height s readable).run db in
      let work = cycle_work net now by_height by_txid current_height s db in
      elim (session_end took_writes db work after e) [
        | inl (took, run) ↦ inl (took, after, run, moved)
        | inr (refused, run) ↦ inr (refused, run)
      ]
