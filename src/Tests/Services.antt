-- ===== src/Tests/Services.antt =====
-- Rate limits, licences, pages and the detection engine: the theorems applied.
use ghostbill.Prelude.{true, false, ◌⊎◌, ℕ, ◌≡◌, refl, none, some, List, [], ◌∷◌, arith, ◌+◌}
use ghostbill.Model.{database_error, err, Text, ok, days}
use ghostbill.RateLimit.Merchant.{passed, check_merchant_bound}
use ghostbill.RateLimit.Window.{requests, ruled, check_set-exact}
use ghostbill.License.{
  Tier, License, generate_license_key, create_license, verify_license_key, invalid, valid,
  tier_limits_of, deactivate_license,
}
use ghostbill.License.Keys.{verify_license_key-create_license}
use ghostbill.Pagination.{newest_first}
use ghostbill.Pagination.Walk.{follow, follow-newest_first}
use ghostbill.Detection.{
  unreachable, missing, rpc_failure, EngineState, MissCounts, detection_cycle,
}
use ghostbill.Detection.Checkpoint.{detection_cycle_lem}
use ghostbill.Detection.Misses.{polls, polls_lem}
use ghostbill.Tests.{clear_net, tables, first_part}

-- Three requests and a limit of two: the third is refused, the fourth has room again.
abbrev instants : List ℕ
instants = 10 ∷ 20 ∷ 30 ∷ 71 ∷ []

check_set-exact_example :
    (requests 2 60 (record { accepted = []; set = [] }) instants).accepted ≡ ruled 2 60 [] instants
check_set-exact_example =
    check_set-exact 2 60 (omega arith) instants
      (omega arith, (omega arith, (omega arith, (omega arith, tt))))

ruled_test : ruled 2 60 [] instants ≡ 10 ∷ 20 ∷ 71 ∷ []
ruled_test = refl

check_merchant_bound_example : passed 2 none (10 ∷ 20 ∷ 30 ∷ []) ≡ 2
check_merchant_bound_example =
    check_merchant_bound 2 10 (20 ∷ 30 ∷ []) (omega arith, (omega arith, tt))

-- A stand-in for the hash: the length of the text.
abbrev toy_hash : Text → ℕ
toy_hash [] = 0
toy_hash (c ∷ cs) = toy_hash cs + 1

abbrev hex : Text
hex = 48 ∷ 49 ∷ 50 ∷ 51 ∷ 52 ∷ 53 ∷ 54 ∷ 55 ∷ 56 ∷ 57 ∷ []

verify_license_key-create_license_example :
    (l : License) × (rows : List License) × (create_license toy_hash 100 hex 7
        (some Tier.growth)
        []
        (some 30)
        []
      ≡ (ok (l, generate_license_key Tier.growth hex), rows))
    × (verify_license_key toy_hash 200 (generate_license_key Tier.growth hex) rows
        ≡ ok (valid Tier.growth (some (100 + days 30)) (tier_limits_of Tier.growth)))
    × (verify_license_key toy_hash 200
          (generate_license_key Tier.growth hex)
          (deactivate_license (some 7) rows).1
        ≡ ok invalid)
verify_license_key-create_license_example =
    verify_license_key-create_license toy_hash Tier.growth hex 100 200 7 [] (some 30) [] refl refl

abbrev rows : List (ℕ × ℕ)
rows = (5, 1) ∷ (9, 2) ∷ (5, 3) ∷ []

follow-newest_first_example :
    follow (λ r. r.0) (λ r. r.1) rows 1 4 none ≡ ok (some (newest_first (λ r. r.0) (λ r. r.1) rows))
follow-newest_first_example = follow-newest_first (λ r. r.0) (λ r. r.1) rows 1 (omega arith)

newest_first_test : newest_first (λ r. r.0) (λ r. r.1) rows ≡ (9, 2) ∷ (5, 3) ∷ (5, 1) ∷ []
newest_first_test = refl

abbrev engine : EngineState
engine = record { last_scanned = 90; last_deep_scan = 0; misses = λ h. 0 }

detection_cycle_lem_example :
    let out =
      detection_cycle clear_net 60 true (λ a b. unreachable) (λ h. missing) 120 engine tables in
    ((true ≡ true) × (after : EngineState) × (out.0 ≡ ok after) × (after.last_scanned ≡ 120))
    ⊎ ((true ≡ false) × (out ≡ (err database_error, tables)))
detection_cycle_lem_example =
    detection_cycle_lem clear_net 60 true (λ a b. unreachable) (λ h. missing) 120 engine tables
      (λ a b same. cc)

polls_lem_example :
    (after : MissCounts) × (polls clear_net 60 first_part
        (missing ∷ rpc_failure ∷ missing ∷ [])
        (λ h. 0)
        tables
      ≡ (ok after, tables))
    × (after 900 ≡ 2)
polls_lem_example =
    polls_lem clear_net 60 first_part (missing ∷ rpc_failure ∷ missing ∷ []) (λ h. 0) tables tt
      (omega arith)
