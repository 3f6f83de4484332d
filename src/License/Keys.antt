-- ===== src/License/Keys.antt =====
-- Licence keys: `extract_key_prefix`, and a key from `create_license` on.
use ghostbill.Prelude.{
  ℕ, ◌≡◌, refl, ap, ◌∙◌, Bool, true, false, Bool-cases, inl, inr, Option, some, List, [], ◌∷◌, ◌++◌,
  ==_refl, any, select, update_where, take, arith, if◌then◌else◌,
}
use ghostbill.Model.{Text, ok}
use ghostbill.License.{
  Tier, License, tier_name, tier_limits_of, key_head, underscore, generate_license_key,
  extract_key_prefix, create_license, verify_license_key, deactivate_license, valid, expired,
  invalid, has_hash, license_has_id, expiry_of, is_past, verify_row,
}

-- Of a generated key the head, the tier and the first eight digits are kept, no more.
extract_key_prefix-generate_license_key :
    (tier : Tier) (random_hex : Text)
    → extract_key_prefix (generate_license_key tier random_hex)
      ≡ key_head ++ tier_name tier ++ underscore ∷ take 8 random_hex
unfolding extract_key_prefix generate_license_key
extract_key_prefix-generate_license_key Tier.community random_hex = refl
extract_key_prefix-generate_license_key Tier.starter random_hex = refl
extract_key_prefix-generate_license_key Tier.growth random_hex = refl
extract_key_prefix-generate_license_key Tier.enterprise random_hex = refl

select-unused :
    {A : Type 0} (p : A → Bool) (xs : List A) (y : A)
    → any p xs ≡ false
    → p y ≡ true
    → select p (xs ++ y ∷ []) ≡ y ∷ []
select-unused p [] y h hit = rw hit refl
select-unused p (x ∷ xs) y h hit = elim (Bool-cases (p x)) [
  | inl e ↦ absurd (ground (arith, e))
  | inr e ↦ rw e (select-unused p xs y (rw e at h) hit)
]

update-unused :
    {A : Type 0} (p : A → Bool) (xs : List A) (y z : A)
    → any p xs ≡ false
    → p y ≡ true
    → update_where p (λ _. z) (xs ++ y ∷ []) ≡ xs ++ z ∷ []
update-unused p [] y z h hit = rw hit refl
update-unused p (x ∷ xs) y z h hit = elim (Bool-cases (p x)) [
  | inl e ↦ absurd (ground (arith, e))
  | inr e ↦ rw e (cc (update-unused p xs y z (rw e at h) hit))
]

ended_row :
    (id : ℕ) (rows : List License) (l : License)
    → select (license_has_id id) rows ≡ l ∷ []
    → deactivate_license (some id) rows ≡ (
      ok (some (record l { active = false })),
      update_where (license_has_id l.id) (λ _. record l { active = false }) rows,
    )
unfolding deactivate_license
ended_row id rows l mine = rw (deactivate_license, mine) refl

module _ (sha256 : Text → ℕ) (tier : Tier) (random_hex : Text) where
  abbrev pub plain : Text
  plain = generate_license_key tier random_hex

  starts :
      (now : ℕ) (rows : List License) (l : License)
      → select (has_hash (sha256 plain)) rows ≡ l ∷ []
      → verify_license_key sha256 now plain rows ≡ ok (verify_row sha256 now (some l))
  unfolding verify_license_key generate_license_key
  starts now rows l found = rw found refl

  -- A licence of a valid tier whose hash and id no other has: the key that comes with it is accepted with
  -- the tier's limits at every time, unless it has a time at which it ends and that has passed, when it is
  -- called expired; and after it is deactivated it is invalid.
  pub verify_license_key-create_license :
      (now later id : ℕ) (email : Text) (duration_days : Option ℕ) (licenses : List License)
      → any (has_hash (sha256 plain)) licenses ≡ false
      → any (license_has_id id) licenses ≡ false
      → (l : License) × (rows : List License) × (create_license sha256 now random_hex id
            (some tier)
            email
            duration_days
            licenses
          ≡ (ok (l, plain), rows))
        × (verify_license_key sha256 later plain rows
            ≡ ok (
                if is_past sha256 later (expiry_of now duration_days)
                then expired
                else valid tier (expiry_of now duration_days) (tier_limits_of tier)))
        × (verify_license_key sha256 later plain (deactivate_license (some id) rows).1 ≡ ok invalid)
  unfolding create_license
  verify_license_key-create_license now later id email duration_days licenses unused fresh =
      let l : License = record {
        id = id;
        key_hash = sha256 plain;
        key_prefix = extract_key_prefix plain;
        email = email;
        tier = tier;
        active = true;
        expires_at = expiry_of now duration_days;
        created_at = now;
      } in
      let gone = record l { active = false } in
      let rows = licenses ++ l ∷ [] in
      let mine = select-unused (license_has_id id) licenses l fresh (==_refl id) in
      let ended : (deactivate_license (some id) rows).1 ≡ licenses ++ gone ∷ [] =
        ap (λ out. out.1) (ended_row id rows l mine)
        ∙ update-unused (license_has_id id) licenses l gone fresh (==_refl id) in
      (
        l,
        rows,
        rw unused refl,
        starts later rows l
            (select-unused (has_hash (sha256 plain)) licenses l unused (==_refl (sha256 plain))),
        rw ended (
            starts later (licenses ++ gone ∷ []) gone (
              select-unused (has_hash (sha256 plain)) licenses gone unused
                (==_refl (sha256 plain)))),
      )
