-- ===== src/RateLimit.antt =====
-- The rate limiters of backend/app/core/rate_limit.py. Redis is a table of its keys; instants are
-- microseconds, which is what the members of a sorted set show, and a member's score is the same
-- instant. `EXPIRE` of a sorted set removes a set whose members are all out of the window, and is left
-- out.
pub mod Merchant
pub mod Window
use ghostbill.Prelude.{
  ℕ, ◌+◌, ◌-◌, ◌/◌, Bool, true, false, not, Option, none, some, List, [], ◌∷◌, ◌++◌, ltb, leb, ◌==◌,
  ◌&&◌, if◌then◌else◌, select, any, length, min, String,
}
use ghostbill.Model.{seconds}

pub data RateTier : Type 0 where
  starter growth enterprise unauthenticated tor_unauthenticated public_api : RateTier

-- `TIER_LIMITS`
unfoldable pub tier_limits : RateTier → ℕ
tier_limits RateTier.starter = 100
tier_limits RateTier.growth = 300
tier_limits RateTier.enterprise = 1000
tier_limits RateTier.unauthenticated = 10
tier_limits RateTier.tor_unauthenticated = 30
tier_limits RateTier.public_api = 300

abbrev pub window_seconds : ℕ
window_seconds = 60

pub record RateLimitResult : Type 0 where
  pub allowed : Bool
  pub limit : ℕ
  pub remaining : ℕ
  pub reset_after : ℕ
  pub retry_after : Option ℕ

-- `headers`: the limit, what remains, and whole seconds.
pub record RateLimitHeaders : Type 0 where
  pub limit : ℕ
  pub remaining : ℕ
  pub reset : ℕ
  pub retry_after : Option ℕ

abbrev whole_seconds : ℕ → ℕ
whole_seconds t = t / 1000000

unfoldable pub headers : RateLimitResult → RateLimitHeaders
headers r = record {
  limit = r.limit;
  remaining = r.remaining;
  reset = whole_seconds r.reset_after;
  retry_after = elim r.retry_after [ none ↦ none | some t ↦ some (whole_seconds t + 1) ];
}

-- The sorted set of a key: its members, in the order in which they came.
abbrev pub SortedSet : Type 0
SortedSet = List ℕ

-- `ZREMRANGEBYSCORE key 0 (now - window)`
abbrev pub in_window : ℕ → ℕ → ℕ → Bool
in_window window now t = ltb now (t + window)

abbrev pub zremrangebyscore : ℕ → ℕ → SortedSet → SortedSet
zremrangebyscore window now zs = select (in_window window now) zs

-- `ZADD key {member: now}`: a member stands once.
abbrev pub zadd : ℕ → SortedSet → SortedSet
zadd member zs = if any (λ t. t == member) zs then zs else zs ++ member ∷ []

abbrev pub zrem : ℕ → SortedSet → SortedSet
zrem member zs = select (λ t. not (t == member)) zs

-- `ZRANGE key 0 0`
abbrev pub oldest : SortedSet → Option ℕ
oldest [] = none
oldest (t ∷ zs) = elim (oldest zs) [ none ↦ some t | some s ↦ some (min t s) ]

-- `max(0, (oldest_score + window) - now)`
abbrev pub reset_time : ℕ → ℕ → Option ℕ → ℕ
reset_time window now none = window
reset_time window now (some score) = score + window - now

-- The part of `check` that Redis has no part in.
abbrev pub decide : ℕ → ℕ → ℕ → RateLimitResult
decide limit current_count reset_after =
    if leb limit current_count
    then record {
      allowed = false;
      limit = limit;
      remaining = 0;
      reset_after = reset_after;
      retry_after = some reset_after;
    }
    else record {
      allowed = true;
      limit = limit;
      remaining = limit - current_count - 1;
      reset_after = reset_after;
      retry_after = none;
    }

-- The `except` branch.
unfoldable pub redis_failed : Bool → ℕ → ℕ → RateLimitResult
redis_failed fail_open limit window = record {
  allowed = fail_open;
  limit = limit;
  remaining = if fail_open then limit else 0;
  reset_after = window;
  retry_after = if fail_open then none else some window;
}

-- Whether the pipeline raises, or the single call that may come after it.
pub data RedisFault : Type 0 where
  no_fault pipeline_fault later_fault : RedisFault

-- `SlidingWindowRateLimiter.check` on the set of its key.
unfoldable pub check_set : Bool → RedisFault → ℕ → ℕ → ℕ → SortedSet → RateLimitResult × SortedSet
unfolding redis_failed
check_set fail_open RedisFault.pipeline_fault limit window now zs =
    (redis_failed fail_open limit window, zs)
check_set fail_open fault limit window now zs =
    let pruned = zremrangebyscore window now zs in
    let current_count = length pruned in
    let added = zadd now pruned in
    let result = decide limit current_count (reset_time window now (oldest added)) in
    if leb limit current_count
    then elim fault [
      | RedisFault.later_fault ↦ (redis_failed fail_open limit window, added)
      | _ ↦ (result, zrem now added)
    ]
    else (result, added)

-- Redis: the set of each key `ratelimit:{tier}:{identifier}`.
abbrev pub RateStore : Type 0
RateStore = RateTier → ℕ → SortedSet

abbrev same_tier : RateTier → RateTier → Bool
same_tier RateTier.starter RateTier.starter = true
same_tier RateTier.growth RateTier.growth = true
same_tier RateTier.enterprise RateTier.enterprise = true
same_tier RateTier.unauthenticated RateTier.unauthenticated = true
same_tier RateTier.tor_unauthenticated RateTier.tor_unauthenticated = true
same_tier RateTier.public_api RateTier.public_api = true
same_tier _ _ = false

abbrev pub put_set : RateTier → ℕ → SortedSet → RateStore → RateStore
put_set tier identifier zs store t i = if same_tier tier t && identifier == i then zs else store t i

unfoldable pub check :
    Bool → RedisFault → ℕ → RateTier → ℕ → ℕ → RateStore → RateLimitResult × RateStore
unfolding check_set tier_limits
check fail_open fault identifier tier window now store =
    let (result, zs) =
      check_set fail_open fault (tier_limits tier) window now (store tier identifier) in
    (result, put_set tier identifier zs store)

-- Without a fault of Redis; with one the count is 0.
unfoldable pub get_usage : ℕ → RateTier → ℕ → RateStore → ℕ × RateStore
get_usage identifier tier now store =
    let pruned = zremrangebyscore (seconds window_seconds) now (store tier identifier) in
    (length pruned, put_set tier identifier pruned store)

unfoldable pub reset : ℕ → RateTier → RateStore → RateStore
reset identifier tier store = put_set tier identifier [] store

-- `MERCHANT_LIMITS.get(tier, 120)`
pub data MerchantTier : Type 0 where
  write read other : MerchantTier

unfoldable pub merchant_limits : MerchantTier → ℕ
merchant_limits MerchantTier.write = 120
merchant_limits MerchantTier.read = 300
merchant_limits MerchantTier.other = 120

-- A key that `INCR` counts, with the instant at which it expires, if one is set.
pub record Counter : Type 0 where
  pub count : ℕ
  pub expires_at : Option ℕ

-- The key as Redis shows it at an instant.
unfoldable pub live_counter : ℕ → Option Counter → Counter
live_counter now none = record { count = 0; expires_at = none }
live_counter now (some c) = elim c.expires_at [
  | none ↦ c
  | some t ↦ if leb t now then record { count = 0; expires_at = none } else c
]

-- `TTL`, where there is one; else 60 seconds from now are set.
abbrev pub expiry : ℕ → Option ℕ → ℕ
expiry now none = now + seconds 60
expiry now (some t) = t

-- `float(ttl) if ttl > 0 else 60.0`
abbrev pub until : ℕ → ℕ → ℕ
until now ends = if ltb now ends then ends - now else seconds 60

abbrev pub counted : ℕ → ℕ → ℕ → ℕ → RateLimitResult
counted limit now count ends =
    let allowed = leb count limit in
    record {
      allowed = allowed;
      limit = limit;
      remaining = limit - count;
      reset_after = until now ends;
      retry_after = if allowed then none else some (until now ends);
    }

-- `MerchantRateLimiter.check` on its key; the TTL is not rounded to seconds. The call after the pipeline
-- is made only where the key has no TTL, and a counter that it fails for stays without one.
unfoldable pub check_merchant :
    Bool → RedisFault → ℕ → ℕ → Option Counter → RateLimitResult × Option Counter
unfolding live_counter redis_failed
check_merchant fail_open RedisFault.pipeline_fault limit now stored =
    (redis_failed fail_open limit (seconds 60), stored)
check_merchant fail_open RedisFault.later_fault limit now stored =
    let before = live_counter now stored in
    let count = before.count + 1 in
    elim before.expires_at [
      | none ↦ (
        redis_failed fail_open limit (seconds 60),
        some (record { count = count; expires_at = none }),
      )
      | some ends ↦
          (counted limit now count ends, some (record { count = count; expires_at = some ends }))
    ]
check_merchant fail_open RedisFault.no_fault limit now stored =
    let before = live_counter now stored in
    let count = before.count + 1 in
    let ends = expiry now before.expires_at in
    (counted limit now count ends, some (record { count = count; expires_at = some ends }))
