-- ===== src/License.antt =====
-- The licence keys of backend/app/services/license_service.py. A text is the list of its characters'
-- codes; SHA-256 and `secrets.token_hex` are parameters, as are the start of the month and the clock.
pub mod Keys
use ghostbill.Prelude.{
  ℕ, zero, suc, ◌+◌, Bool, true, false, not, Option, none, some, List, [], ◌∷◌, ◌++◌, ltb, leb,
  ◌==◌, ◌&&◌, if◌then◌else◌, select, update_where, any, length, take, order_desc,
}
use ghostbill.Model.{
  Db, Text, Result, ok, err, value_error, integrity_error, days, scalar_one_or_none,
}

pub data Tier : Type 0 where
  community starter growth enterprise : Tier

-- The words of `VALID_TIERS`.
abbrev pub tier_name : Tier → Text
tier_name Tier.community = 99 ∷ 111 ∷ 109 ∷ 109 ∷ 117 ∷ 110 ∷ 105 ∷ 116 ∷ 121 ∷ []
tier_name Tier.starter = 115 ∷ 116 ∷ 97 ∷ 114 ∷ 116 ∷ 101 ∷ 114 ∷ []
tier_name Tier.growth = 103 ∷ 114 ∷ 111 ∷ 119 ∷ 116 ∷ 104 ∷ []
tier_name Tier.enterprise = 101 ∷ 110 ∷ 116 ∷ 101 ∷ 114 ∷ 112 ∷ 114 ∷ 105 ∷ 115 ∷ 101 ∷ []

-- `TIER_LIMITS`; `none` is the -1 of no limit.
pub record TierLimits : Type 0 where
  pub invoices_per_month : Option ℕ
  pub analytics : Bool
  pub admin : Bool

unfoldable pub tier_limits_of : Tier → TierLimits
tier_limits_of Tier.community = record {
  invoices_per_month = none;
  analytics = false;
  admin = false;
}
tier_limits_of Tier.starter = record {
  invoices_per_month = some 500;
  analytics = false;
  admin = false;
}
tier_limits_of Tier.growth = record { invoices_per_month = none; analytics = true; admin = true }
tier_limits_of Tier.enterprise = record {
  invoices_per_month = none;
  analytics = true;
  admin = true;
}

pub record License : Type 0 where
  pub id : ℕ
  pub key_hash : ℕ
  pub key_prefix : Text
  pub email : Text
  pub tier : Tier
  pub active : Bool
  pub expires_at : Option ℕ
  pub created_at : ℕ

-- `_`
abbrev pub underscore : ℕ
underscore = 95

-- `"gbl_"`
abbrev pub key_head : Text
key_head = 103 ∷ 98 ∷ 108 ∷ underscore ∷ []

-- `gbl_<tier>_<hex>`, for a valid tier.
unfoldable pub generate_license_key : Tier → Text → Text
generate_license_key tier random_hex = key_head ++ tier_name tier ++ underscore ∷ random_hex

-- What stands before the first `_` and, if there is one, what comes after it.
abbrev pub split_once : Text → Text × Option Text
split_once [] = ([], none)
split_once (c ∷ cs) =
    let (head, rest) = split_once cs in if c == underscore then ([], some cs) else (c ∷ head, rest)

abbrev join_prefix : Text → Text → Text → Text
join_prefix first second third = first ++ underscore ∷ second ++ underscore ∷ take 8 third

abbrev prefix_of : Text → Text → Text × Option Text → Text
prefix_of plain_key first (second, none) = take 20 plain_key
prefix_of plain_key first (second, some third) = join_prefix first second third

abbrev split_more : Text → Text × Option Text → Text
split_more plain_key (first, none) = take 20 plain_key
split_more plain_key (first, some rest) = prefix_of plain_key first (split_once rest)

-- `plain_key.split("_", maxsplit=2)` has three parts, or it does not.
unfoldable pub extract_key_prefix : Text → Text
extract_key_prefix plain_key = split_more plain_key (split_once plain_key)

-- `plain_key.startswith("gbl_")`
abbrev pub starts_with : Text → Text → Bool
starts_with [] s = true
starts_with (c ∷ cs) [] = false
starts_with (c ∷ cs) (d ∷ ds) = if c == d then starts_with cs ds else false

-- `if duration_days and duration_days > 0`; a negative duration is like none.
abbrev pub expiry_of : ℕ → Option ℕ → Option ℕ
expiry_of now none = none
expiry_of now (some zero) = none
expiry_of now (some n) = some (now + days n)

-- What a dashboard is told.
pub data Verification : Type 0 where
  invalid expired : Verification
  valid : Tier → Option ℕ → TierLimits → Verification

abbrev pub has_hash : ℕ → License → Bool
has_hash key_hash l = l.key_hash == key_hash

abbrev pub license_has_id : ℕ → License → Bool
license_has_id id l = l.id == id

module _ (sha256 : Text → ℕ) where
  -- The row and the key, which is stored nowhere; hashes are unique; `none` is a tier that is not valid.
  unfoldable pub create_license :
      ℕ
      → Text
      → ℕ
      → Option Tier
      → Text
      → Option ℕ
      → List License
      → Result (License × Text) × List License
  unfolding generate_license_key extract_key_prefix
  create_license now random_hex id none email duration_days licenses = (err value_error, licenses)
  create_license now random_hex id (some tier) email duration_days licenses =
      let plain_key = generate_license_key tier random_hex in
      let license : License = record {
        id = id;
        key_hash = sha256 plain_key;
        key_prefix = extract_key_prefix plain_key;
        email = email;
        tier = tier;
        active = true;
        expires_at = expiry_of now duration_days;
        created_at = now;
      } in
      if any (has_hash license.key_hash) licenses
      then (err integrity_error, licenses)
      else (ok (license, plain_key), licenses ++ license ∷ [])

  -- `expires_at and expires_at < now`
  abbrev pub is_past : ℕ → Option ℕ → Bool
  is_past now none = false
  is_past now (some t) = ltb t now

  abbrev pub verify_row : ℕ → Option License → Verification
  verify_row now none = invalid
  verify_row now (some l) =
      if not l.active
      then invalid
      else if is_past now l.expires_at
      then expired
      else valid l.tier l.expires_at (tier_limits_of l.tier)

  unfoldable pub verify_license_key : ℕ → Text → List License → Result Verification
  unfolding tier_limits_of
  verify_license_key now plain_key licenses =
      if not (starts_with key_head plain_key)
      then ok invalid
      else elim (scalar_one_or_none (select (has_hash (sha256 plain_key)) licenses)) [
        | ok found ↦ ok (verify_row now found)
        | err e ↦ err e
      ]

unfoldable pub list_licenses : List License → List License
list_licenses licenses = order_desc (λ l. l.created_at) licenses

abbrev deactivated : List License → Option License → Option License × List License
deactivated licenses none = (none, licenses)
deactivated licenses (some l) = (
  some (record l { active = false }),
  update_where (license_has_id l.id) (λ _. record l { active = false }) licenses,
)

-- `none` is an id that is no UUID.
unfoldable pub deactivate_license : Option ℕ → List License → Result (Option License) × List License
deactivate_license none licenses = (ok none, licenses)
deactivate_license (some id) licenses =
    elim (scalar_one_or_none (select (license_has_id id) licenses)) [
      | err e ↦ (err e, licenses)
      | ok found ↦ let (l, rows) = deactivated licenses found in (ok l, rows)
    ]

pub record TierCheckResult : Type 0 where
  pub allowed : Bool
  pub over_limit : Bool
  pub tier : Tier
  pub limit : Option ℕ
  pub current : ℕ

-- The features that limits are looked up for: a number, a flag read as a number, or none.
pub data Feature : Type 0 where
  invoices_per_month analytics admin unknown : Feature

-- `int(limits.get(feature, -1))`
abbrev pub limit_of : TierLimits → Feature → Option ℕ
limit_of limits Feature.invoices_per_month = limits.invoices_per_month
limit_of limits Feature.analytics = some (if limits.analytics then 1 else 0)
limit_of limits Feature.admin = some (if limits.admin then 1 else 0)
limit_of limits Feature.unknown = none

abbrev current_of : ℕ → ℕ → Feature → Db → ℕ
current_of merchant_id month_start Feature.invoices_per_month db =
    length (select (λ i. i.merchant_id == merchant_id && leb month_start i.created_at) db.invoices)
current_of merchant_id month_start _ db = 0

-- `limit >= 0 and current >= limit`
abbrev over : Option ℕ → ℕ → Bool
over none current = false
over (some limit) current = leb limit current

-- Every merchant is checked as a community one.
unfoldable pub check_tier_limit : ℕ → ℕ → Feature → Db → TierCheckResult
unfolding tier_limits_of
check_tier_limit merchant_id month_start feature db =
    let limit = limit_of (tier_limits_of Tier.community) feature in
    let current = current_of merchant_id month_start feature db in
    record {
      allowed = true;
      over_limit = over limit current;
      tier = Tier.community;
      limit = limit;
      current = current;
    }
