-- ===== src/Pagination.antt =====
-- Cursor pagination: backend/app/utils/pagination.py, for the rows of any query and the table that
-- the cursor is looked up in, with the tenant's filter applied to both.
pub mod Order
pub mod Walk
use ghostbill.Prelude.{
  ℕ, zero, suc, ◌+◌, Bool, true, false, Option, none, some, List, [], ◌∷◌, ◌++◌, ltb, ◌==◌, ◌&&◌,
  ◌||◌, if◌then◌else◌, select, length, take, max, min,
}
use ghostbill.Model.{Result, ok, err, http_bad_request}

-- Both cursors at once are refused.
unfoldable pub validate_cursor_params : Option ℕ → Option ℕ → Result (Unit {0})
validate_cursor_params (some a) (some b) = err http_bad_request
validate_cursor_params _ _ = ok tt

unfoldable pub clamp_limit : ℕ → ℕ
clamp_limit limit = max 1 (min limit 100)

-- A page of rows, and whether there are more.
pub record Page (A : Type 0) : Type 0 where
  pub data_rows : List A
  pub has_more : Bool

module _ {A : Type 0} (order_column id : A → ℕ) where
  -- `tuple_(order_column, id) < tuple_(cursor_ts, cursor_id)`
  abbrev pub tuple_lt : A → A → Bool
  tuple_lt a b =
      ltb (order_column a) (order_column b)
      || (order_column a == order_column b && ltb (id a) (id b))

  -- `ORDER BY order_column DESC, id DESC`, and with both ascending.
  abbrev pub insert_by : (A → A → Bool) → A → List A → List A
  insert_by before x [] = x ∷ []
  insert_by before x (y ∷ ys) =
      let rest = insert_by before x ys in if before x y then x ∷ y ∷ ys else y ∷ rest

  abbrev pub order_by : (A → A → Bool) → List A → List A
  order_by before [] = []
  order_by before (x ∷ xs) = insert_by before x (order_by before xs)

  abbrev pub newest_first : List A → List A
  newest_first = order_by (λ a b. tuple_lt b a)

  abbrev pub oldest_first : List A → List A
  oldest_first = order_by tuple_lt

  abbrev pub reverse : List A → List A
  reverse [] = []
  reverse (x ∷ xs) = reverse xs ++ x ∷ []

  -- `limit + 1` rows are read, and the last one only says that there are more.
  abbrev pub cut : ℕ → List A → Page A
  cut limit rows =
      let found = take (suc limit) rows in
      record { data_rows = take limit found; has_more = ltb limit (length found) }

  abbrev pub backward : ℕ → List A → Page A
  backward limit rows =
      let page = cut limit rows in
      record { data_rows = reverse page.data_rows; has_more = page.has_more }

  -- `cursor_row`: the first row with the id.
  abbrev pub first_of : List A → Option A
  first_of [] = none
  first_of (x ∷ xs) = some x

  abbrev pub after_cursor : ℕ → List A → Option A → Result (Page A)
  after_cursor limit rows none = err http_bad_request
  after_cursor limit rows (some c) = ok (cut limit (newest_first (select (λ r. tuple_lt r c) rows)))

  abbrev pub before_cursor : ℕ → List A → Option A → Result (Page A)
  before_cursor limit rows none = err http_bad_request
  before_cursor limit rows (some c) =
      ok (backward limit (oldest_first (select (λ r. tuple_lt c r) rows)))

  -- `table` is what the cursor is looked up in, `rows` what the query finds.
  unfoldable pub paginate_cursor : List A → List A → ℕ → Option ℕ → Option ℕ → Result (Page A)
  unfolding clamp_limit
  paginate_cursor table rows limit (some starting_after) ending_before =
      after_cursor (clamp_limit limit) rows (first_of (select (λ r. id r == starting_after) table))
  paginate_cursor table rows limit none (some ending_before) =
      before_cursor (clamp_limit limit) rows (first_of (select (λ r. id r == ending_before) table))
  paginate_cursor table rows limit none none = ok (cut (clamp_limit limit) (newest_first rows))
