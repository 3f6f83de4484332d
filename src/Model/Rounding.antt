-- ===== src/Model/Rounding.antt =====
-- Python's `decimal.Decimal` as the program uses it. `dec n s` is n / 10^s. The default context
-- rounds each result to 28 significant digits, half to even; how many trailing zeros a value is
-- written with does not matter to the program.
use ghostbill.Prelude.{ℕ, zero, suc, ◌+◌, ◌*◌, ◌/◌, ◌%◌, ◌^◌, Bool, ◌==◌, ltb, if◌then◌else◌}
use ghostbill.Prelude.Int.{ℤ}

pub data Decimal : Type 0 where
  dec : ℤ → ℕ → Decimal
  infinity : Bool → Decimal
  nan : Decimal

abbrev pub precision_bound : ℕ
precision_bound = 10 ^ 28

-- How many digits of `n` are beyond the 28 that the context keeps.
unfoldable pub excess_digits : ℕ → ℕ → ℕ
excess_digits zero n = 0
excess_digits (suc fuel) n =
    let more = suc (excess_digits fuel (n / 10)) in if ltb n precision_bound then 0 else more

-- `n` with its last `k` digits rounded away, half to even.
unfoldable pub round_half_even : ℕ → ℕ → ℕ
round_half_even k n =
    let unit = 10 ^ k in
    let kept = n / unit in
    let twice = 2 * (n % unit) in
    let up = if twice == unit then kept % 2 == 1 else ltb unit twice in
    (if up then kept + 1 else kept) * unit

-- The rounding of the context; a number has no more digits than its own value, so the fuel is enough.
unfoldable pub round_context : ℕ → ℕ
unfolding excess_digits round_half_even
round_context n = round_half_even (excess_digits n n) n
