-- ===== src/RateLimit/Window.antt =====
-- `SlidingWindowRateLimiter.check` on a row of requests.
use ghostbill.Prelude.{
  ℕ, ◌≤◌, ◌<◌, ◌≡◌, refl, sym, ap, subst, ◌∙◌, Bool, true, false, Bool-cases, inl, inr, List, [],
  ◌∷◌, ◌++◌, All, arith, ltb, leb, ◌==◌, select, any, length, if◌then◌else◌,
}
use ghostbill.Prelude.Keys.{All-map, All-append_one}
use ghostbill.RateLimit.{RedisFault, check_set, in_window, zremrangebyscore, zrem, SortedSet}

-- The requests that were let through, and the set of the key.
pub record Log : Type 0 where
  pub accepted : List ℕ
  pub set : SortedSet

-- One request through `check`.
abbrev pub request : ℕ → ℕ → Log → ℕ → Log
request limit window log now =
    let (result, zs) = check_set true RedisFault.no_fault limit window now log.set in
    record {
      accepted = if result.allowed then log.accepted ++ now ∷ [] else log.accepted;
      set = zs;
    }

abbrev pub requests : ℕ → ℕ → Log → List ℕ → Log
requests limit window log [] = log
requests limit window log (t ∷ ts) = requests limit window (request limit window log t) ts

-- The rule: a request is let through if fewer than `limit` were in the window before it.
abbrev pub ruled : ℕ → ℕ → List ℕ → List ℕ → List ℕ
ruled limit window accepted [] = accepted
ruled limit window accepted (t ∷ ts) =
    ruled limit window
      (if ltb (length (select (in_window window t) accepted)) limit
        then accepted ++ t ∷ []
        else accepted)
      ts

-- Every request comes after all that went before.
abbrev pub Ascends : ℕ → List ℕ → Type 0
Ascends last [] = Unit
Ascends last (t ∷ ts) = (last < t) × Ascends t ts

select-none : (p : ℕ → Bool) (xs : List ℕ) → All (λ x. p x ≡ true) xs → select p xs ≡ xs
select-none p [] h = refl
select-none p (x ∷ xs) (h, hs) = rw h (cc (select-none p xs hs))

select-append :
    (p : ℕ → Bool) (xs : List ℕ) (y : ℕ)
    → p y ≡ true
    → select p (xs ++ y ∷ []) ≡ select p xs ++ y ∷ []
select-append p [] y h = rw h refl
select-append p (x ∷ xs) y h = elim (Bool-cases (p x)) [
  | inl e ↦ rw e (cc (select-append p xs y h))
  | inr e ↦ rw e (select-append p xs y h)
]

-- What is in a later window was in the earlier one.
narrow :
    (window s t : ℕ) (xs : List ℕ)
    → s ≤ t
    → select (in_window window t) (select (in_window window s) xs) ≡ select (in_window window t) xs
narrow window s t [] le = refl
narrow window s t (x ∷ xs) le =
    let rest = narrow window s t xs le in
    elim (Bool-cases (in_window window s x)) [
      | inl early ↦ elim (Bool-cases (in_window window t x)) [
        | inl late ↦ rw (early, late) (cc rest)
        | inr gone ↦ rw (early, gone) rest
      ]
      | inr gone ↦ let later : in_window window t x ≡ false = ground arith in rw (gone, later) rest
    ]

fresh_member : (t : ℕ) (xs : List ℕ) → All (λ x. x < t) xs → any (λ x. x == t) xs ≡ false
fresh_member t [] h = refl
fresh_member t (x ∷ xs) (h, hs) = rw (fresh_member t xs hs) (ground arith)

without_fresh : (t : ℕ) (xs : List ℕ) → All (λ x. x < t) xs → zrem t (xs ++ t ∷ []) ≡ xs
without_fresh t [] h = ground arith
without_fresh t (x ∷ xs) (h, hs) =
    let other : (x == t) ≡ false = ground arith in rw (other, without_fresh t xs hs) refl

All-select : (P : ℕ → Type 0) (p : ℕ → Bool) (xs : List ℕ) → All P xs → All P (select p xs)
All-select P p [] h = tt
All-select P p (x ∷ xs) (h, hs) = elim (Bool-cases (p x)) [
  | inl e ↦ rw e (h, All-select P p xs hs)
  | inr e ↦ rw e (All-select P p xs hs)
]

-- The set holds what was let through in the window of the last request.
record IsExact (window last : ℕ) (log : Log) : Type 0 where
  kept : log.set ≡ select (in_window window last) log.accepted
  past : All (λ t. t ≤ last) log.accepted

module _ (limit window : ℕ) (some_window : 0 < window) where
  -- What was let through in the window of a request.
  abbrev recent : ℕ → Log → List ℕ
  recent now log = select (in_window window now) log.accepted

  pruned :
      (last now : ℕ) (log : Log)
      → IsExact window last log
      → last < now
      → zremrangebyscore window now log.set ≡ recent now log
  pruned last now log e later =
      ap (select (in_window window now)) e.kept ∙ narrow window last now log.accepted (omega arith)

  request_full :
      (last now : ℕ) (log : Log)
      → IsExact window last log
      → last < now
      → leb limit (length (recent now log)) ≡ true
      → request limit window log now ≡ record { accepted = log.accepted; set = recent now log }
  unfolding check_set
  request_full last now log e later full =
      let old =
        All-select (λ x. x < now) (in_window window now) log.accepted
          (All-map (λ x. x ≤ last) (λ x. x < now) log.accepted (λ x h. omega arith) e.past) in
      rw
        (
          pruned last now log e later,
          full,
          fresh_member now (recent now log) old,
          without_fresh now (recent now log) old,
        )
        refl

  request_room :
      (last now : ℕ) (log : Log)
      → IsExact window last log
      → last < now
      → leb limit (length (recent now log)) ≡ false
      → request limit window log now
        ≡ record { accepted = log.accepted ++ now ∷ []; set = recent now log ++ now ∷ [] }
  unfolding check_set
  request_room last now log e later room =
      let old =
        All-select (λ x. x < now) (in_window window now) log.accepted
          (All-map (λ x. x ≤ last) (λ x. x < now) log.accepted (λ x h. omega arith) e.past) in
      rw (pruned last now log e later, room, fresh_member now (recent now log) old) refl

  abbrev Step : ℕ → Log → Log → Type 0
  Step now log out =
      IsExact window now out
      × (out.accepted ≡ (
          if ltb (length (recent now log)) limit then log.accepted ++ now ∷ [] else log.accepted))

  request_lem :
      (last now : ℕ) (log : Log)
      → IsExact window last log
      → last < now
      → Step now log (request limit window log now)
  request_lem last now log e later =
      let past : All (λ t. t ≤ now) log.accepted =
        All-map (λ x. x ≤ last) (λ x. x ≤ now) log.accepted (λ x h. omega arith) e.past in
      let here : in_window window now now ≡ true = ground arith in
      elim (Bool-cases (leb limit (length (recent now log)))) [
        | inl full ↦
            let no : ltb (length (recent now log)) limit ≡ false = ground arith in
            subst (Step now log) (sym (request_full last now log e later full))
              (record { kept = refl; past = past }, rw no refl)
        | inr room ↦
            let yes : ltb (length (recent now log)) limit ≡ true = ground arith in
            subst (Step now log) (sym (request_room last now log e later room)) (
              record {
                kept = sym (select-append (in_window window now) log.accepted now here);
                past = All-append_one (λ t. t ≤ now) log.accepted now past (omega arith);
              },
              rw yes refl,
            )
      ]

  requests-ruled :
      (last : ℕ) (ts : List ℕ) (log : Log)
      → IsExact window last log
      → Ascends last ts
      → (requests limit window log ts).accepted ≡ ruled limit window log.accepted ts
  requests-ruled last [] log e ascends = refl
  requests-ruled last (t ∷ ts) log e (later, ascends) =
      let (exact, same) = request_lem last t log e later in
      requests-ruled t ts (request limit window log t) exact ascends
      ∙ ap (λ accepted. ruled limit window accepted ts) same

  -- The limiter with an empty set lets through just the requests of the sliding window: one is let through
  -- if fewer than the limit were let through in the window before it. The instants are above 0 and each
  -- comes after the one before.
  pub check_set-exact :
      (ts : List ℕ)
      → Ascends 0 ts
      → (requests limit window (record { accepted = []; set = [] }) ts).accepted
        ≡ ruled limit window [] ts
  check_set-exact ts ascends =
      requests-ruled 0 ts (record { accepted = []; set = [] }) (record { kept = refl; past = tt })
        ascends
