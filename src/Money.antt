-- ===== src/Money.antt =====
-- Amounts: the conversions between XMR and piconero of backend/app/services/monero_rpc.py, and the
-- validation of an amount in backend/app/services/invoice_service.py.
pub mod Conversion
pub mod Validation
use ghostbill.Prelude.{
  ℕ, zero, suc, ◌+◌, ◌*◌, ◌/◌, ◌%◌, ◌^◌, Bool, true, false, Option, none, some, ltb, leb,
  if◌then◌else◌,
}
use ghostbill.Prelude.Int.{ℤ, pos, negsuc}
use ghostbill.Model.{
  Decimal, dec, infinity, nan, round_context, Result, ok, err, invoice_validation,
  invalid_operation, overflow_error, value_error,
}

-- `PICONERO` and `DUST_THRESHOLD_ATOMIC`
abbrev pub piconero : ℕ
piconero = 10 ^ 12

abbrev pub dust_threshold_atomic : ℕ
dust_threshold_atomic = 100_000_000

-- `Decimal(str(atomic)) / Decimal(str(PICONERO))`
unfoldable pub atomic_to_xmr : ℕ → Decimal
atomic_to_xmr atomic = dec (pos (round_context atomic)) 12

abbrev pub negate : ℕ → ℤ
negate zero = pos 0
negate (suc n) = negsuc n

-- `int(x * PICONERO)` for x = n / 10^s: the product is rounded to the context, then cut towards 0.
unfoldable pub atomic_of : ℕ → ℕ → ℕ
atomic_of n s = round_context (n * piconero) / 10 ^ s

-- `int` raises at an infinity and at a NaN.
unfoldable pub xmr_to_atomic : Decimal → Result ℤ
unfolding atomic_of
xmr_to_atomic (dec (pos n) s) = ok (pos (atomic_of n s))
xmr_to_atomic (dec (negsuc n) s) = ok (negate (atomic_of (suc n) s))
xmr_to_atomic (infinity positive) = err overflow_error
xmr_to_atomic nan = err value_error

-- `amount <= 0` and `amount > bound`, which raise at a NaN.
unfoldable pub is_nonpositive : Decimal → Result Bool
is_nonpositive (dec (pos n) s) = ok (leb n 0)
is_nonpositive (dec (negsuc n) s) = ok true
is_nonpositive (infinity positive) = ok (if positive then false else true)
is_nonpositive nan = err invalid_operation

unfoldable pub is_above : ℕ → Decimal → Result Bool
is_above bound (dec (pos n) s) = ok (ltb (bound * 10 ^ s) n)
is_above bound (dec (negsuc n) s) = ok false
is_above bound (infinity positive) = ok positive
is_above bound nan = err invalid_operation

abbrev unless : Result Bool → Decimal → Result Decimal
unless (ok true) amount = err invoice_validation
unless (ok false) amount = ok amount
unless (err e) amount = err e

abbrev and_then : Result Decimal → (Decimal → Result Decimal) → Result Decimal
and_then (ok amount) f = f amount
and_then (err e) f = err e

-- `_parse_amount_xmr`; `none` stands for an input that `Decimal(str(raw))` does not read.
unfoldable pub parse_amount_xmr : Option Decimal → Result Decimal
unfolding is_nonpositive is_above
parse_amount_xmr none = err invoice_validation
parse_amount_xmr (some amount) =
    and_then (unless (is_nonpositive amount) amount) λ a. unless (is_above 1000000000 a) a
