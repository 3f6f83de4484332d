-- ===== src/Money/Validation.antt =====
-- What `_parse_amount_xmr` accepts, on every kind of input.
use ghostbill.Prelude.{ℕ, ◌*◌, ◌^◌, ◌≤◌, ◌<◌, ◌≡◌, some, arith}
use ghostbill.Prelude.Int.{pos, negsuc}
use ghostbill.Model.{Decimal, dec, infinity, nan, ok}
use ghostbill.Money.{parse_amount_xmr}

-- An amount that is above 0 and at most a billion XMR.
pub record IsPayable (d : Decimal) : Type 0 where
  pub coefficient : ℕ
  pub scale : ℕ
  pub finite : d ≡ dec (pos coefficient) scale
  pub positive : 0 < coefficient
  pub capped : coefficient ≤ 1000000000 * 10 ^ scale

-- What is accepted is returned as it was given, and is above 0 and at most a billion XMR.
pub parse_amount_xmr-IsPayable :
    (d a : Decimal) → parse_amount_xmr (some d) ≡ ok a → (a ≡ d) × IsPayable d
unfolding parse_amount_xmr
parse_amount_xmr-IsPayable (dec (pos n) s) a h = (
  ground arith,
  record {
    coefficient = n;
    scale = s;
    finite = ground arith;
    positive = ground arith;
    capped = ground arith;
  },
)
parse_amount_xmr-IsPayable (dec (negsuc n) s) a h = cc
parse_amount_xmr-IsPayable (infinity positive) a h = ground arith
parse_amount_xmr-IsPayable nan a h = cc

-- Every such amount is accepted.
pub parse_amount_xmr_complete :
    (n s : ℕ)
    → 0 < n
    → n ≤ 1000000000 * 10 ^ s
    → parse_amount_xmr (some (dec (pos n) s)) ≡ ok (dec (pos n) s)
unfolding parse_amount_xmr
parse_amount_xmr_complete n s positive capped = ground arith
