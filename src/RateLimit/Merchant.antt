-- ===== src/RateLimit/Merchant.antt =====
-- `MerchantRateLimiter.check` on a row of requests.
use ghostbill.Prelude.{
  ℕ, suc, ◌+◌, ◌-◌, ◌<◌, ◌≡◌, true, false, Bool-cases, inl, inr, Option, none, some, List, [], ◌∷◌,
  All, arith, leb, min, length, if◌then◌else◌,
}
use ghostbill.Model.{seconds}
use ghostbill.RateLimit.{RedisFault, Counter, check_merchant, live_counter}

-- How many of the requests are let through.
abbrev pub passed : ℕ → Option Counter → List ℕ → ℕ
passed limit stored [] = 0
passed limit stored (t ∷ ts) =
    let (result, after) = check_merchant true RedisFault.no_fault limit t stored in
    let rest = passed limit after ts in if result.allowed then suc rest else rest

passed-running :
    (limit count ends : ℕ) (ts : List ℕ)
    → All (λ t. t < ends) ts
    → passed limit (some (record { count = count; expires_at = some ends })) ts
      ≡ min (limit - count) (length ts)
unfolding check_merchant live_counter
passed-running limit count ends [] early = ground arith
passed-running limit count ends (t ∷ ts) (h, early) =
    let rest = passed-running limit (count + 1) ends ts early in
    let alive : leb ends t ≡ false = ground arith in
    elim (Bool-cases (leb (count + 1) limit)) [
      | inl room ↦ rw (alive, room, rest) (ground arith)
      | inr full ↦ rw (alive, full, rest) (ground arith)
    ]

-- From a request on that finds no counter, as many requests in the 60 seconds after it are let through as
-- there are, but no more than the limit.
pub check_merchant_bound :
    (limit first : ℕ) (ts : List ℕ)
    → All (λ t. t < first + seconds 60) ts
    → passed limit none (first ∷ ts) ≡ min limit (suc (length ts))
unfolding check_merchant live_counter
check_merchant_bound limit first ts early =
    let rest = passed-running limit 1 (first + seconds 60) ts early in
    elim (Bool-cases (leb 1 limit)) [
      | inl room ↦ rw (room, rest) (ground arith)
      | inr full ↦ rw (full, rest) (ground arith)
    ]
