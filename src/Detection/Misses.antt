-- ===== src/Detection/Misses.antt =====
-- `update_unconfirmed` on a transaction that wallet-rpc does not show.
use ghostbill.Prelude.{ℕ, suc, ◌+◌, ◌<◌, ◌≡◌, refl, ◌∙◌, true, List, [], ◌∷◌, ltb, arith, ==_refl}
use ghostbill.Model.{Db, Payment, Exec, ok, pure, ◌>>=◌, bind-ok}
use ghostbill.Tor.{Network}
use ghostbill.Detection.{
  TxReply, known, missing, rpc_failure, miss, check_payment, MissCounts, set_misses,
  tx_miss_orphan_threshold,
}

-- The missing answers in a row of answers none of which shows the transaction.
abbrev pub missing_count : List TxReply → ℕ
missing_count [] = 0
missing_count (missing ∷ rs) = suc (missing_count rs)
missing_count (r ∷ rs) = missing_count rs

abbrev pub NoneKnown : List TxReply → Type 0
NoneKnown [] = Unit
NoneKnown (known confirmations height ∷ rs) = ⊥
NoneKnown (r ∷ rs) = NoneKnown rs

module _ (net : Network) (now : ℕ) where
  -- The same payment in one cycle after the other.
  abbrev pub polls : Payment → List TxReply → MissCounts → Exec MissCounts
  polls payment [] misses = pure misses
  polls payment (r ∷ rs) misses =
      check_payment net now misses payment r >>= λ out. polls payment rs out.0

  -- From a count of misses on: cycles in which wallet-rpc fails or does not show the transaction of a
  -- payment, with fewer than three misses in all, change nothing in the tables, and the misses are counted.
  pub polls_lem :
      (payment : Payment) (rs : List TxReply) (misses : MissCounts) (db : Db)
      → NoneKnown rs
      → misses payment.tx_hash + missing_count rs < 3
      → (after : MissCounts) × (polls payment rs misses db ≡ (ok after, db))
        × (after payment.tx_hash ≡ misses payment.tx_hash + missing_count rs)
  unfolding check_payment miss
  polls_lem payment [] misses db none_known few = (misses, refl, omega arith)
  polls_lem payment (known confirmations height ∷ rs) misses db none_known few = absurd none_known
  polls_lem payment (rpc_failure ∷ rs) misses db none_known few =
      polls_lem payment rs misses db none_known few
  polls_lem payment (missing ∷ rs) misses db none_known few =
      let count = misses payment.tx_hash + 1 in
      let counted = set_misses payment.tx_hash count misses in
      let below : ltb count tx_miss_orphan_threshold ≡ true = ground arith in
      let here : counted payment.tx_hash ≡ count = rw (==_refl payment.tx_hash) refl in
      let step : check_payment net now misses payment missing db ≡ (ok (counted, 0), db) =
        rw below refl in
      let (after, run, total) = polls_lem payment rs counted db none_known (omega (arith, here)) in
      (
        after,
        bind-ok (check_payment net now misses payment missing) (λ out. polls payment rs out.0) db
              step
            ∙ run,
        omega (arith, here, total),
      )
