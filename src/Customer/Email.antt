-- ===== src/Customer/Email.antt =====
-- `_EMAIL_RE` of backend/app/services/customer_service.py.
use ghostbill.Prelude.{
  ℕ, ◌≡◌, refl, sym, ap, subst, ◌⊎◌, inl, inr, Bool, true, Bool-cases, [], ◌∷◌, ◌++◌, All, arith,
  ◌==◌, ==_iff, ◌↔◌,
}
use ghostbill.Model.{Text}
use ghostbill.Customer.{plus, char, dollar, is_word, email_re}

-- One character or more, all of the class.
abbrev pub Word : Text → Type 0
Word [] = ⊥
Word (c ∷ cs) = All (λ d. is_word d ≡ true) (c ∷ cs)

-- Nothing, or one line break.
abbrev pub End : Text → Type 0
End s = (s ≡ []) ⊎ (s ≡ 10 ∷ [])

plus_sound :
    (next : Text → Bool) (s : Text)
    → plus is_word next s ≡ true
    → (w : Text) × (rest : Text) × Word w × (next rest ≡ true) × (s ≡ w ++ rest)
plus_sound next [] h = cc
plus_sound next (c ∷ cs) h = elim (Bool-cases (next cs)) [
  | inl here ↦ let hit : is_word c ≡ true = ground (arith, h) in (c ∷ [], cs, (hit, tt), here, refl)
  | inr later ↦
      let hit : is_word c ≡ true = ground (arith, h) in
      let more : plus is_word next cs ≡ true = ground (arith, h, later) in
      let (w, rest, word, tail, e) = plus_sound next cs more in
      (c ∷ w, rest, (hit, all w word), tail, ap (λ t. c ∷ t) e)
]
  where
    all : (w : Text) → Word w → All (λ d. is_word d ≡ true) w
    all [] h = tt
    all (d ∷ w) h = h

plus_complete :
    (next : Text → Bool) (w rest : Text)
    → Word w
    → next rest ≡ true
    → plus is_word next (w ++ rest) ≡ true
plus_complete next [] rest h k = absurd h
plus_complete next (c ∷ []) rest (hit, none) k = rw (hit, k) refl
plus_complete next (c ∷ d ∷ w) rest (hit, more) k =
    let later = plus_complete next (d ∷ w) rest more k in
    elim (Bool-cases (next (d ∷ (w ++ rest)))) [
      | inl here ↦ rw (hit, here) refl
      | inr other ↦ rw (hit, other) later
    ]

char_sound :
    (k : ℕ) (next : Text → Bool) (s : Text)
    → char k next s ≡ true
    → (rest : Text) × (next rest ≡ true) × (s ≡ k ∷ rest)
char_sound k next [] h = cc
char_sound k next (c ∷ cs) h =
    let same : (c == k) ≡ true = ground (arith, h) in
    let rest : next cs ≡ true = ground (arith, h) in
    (cs, rest, ap (λ d. d ∷ cs) ((==_iff c k).0 same))

dollar_sound : (s : Text) → dollar s ≡ true → End s
dollar_sound [] h = inl refl
dollar_sound (c ∷ []) h = inr (ap (λ d. d ∷ []) ((==_iff c 10).0 h))
dollar_sound (c ∷ d ∷ s) h = cc

-- The shape: words around an at sign and a full stop, and then perhaps a line break.
pub record IsAddress (s : Text) : Type 0 where
  pub local : Text
  pub host : Text
  pub domain : Text
  pub end : Text
  pub local_word : Word local
  pub host_word : Word host
  pub domain_word : Word domain
  pub end_line : End end
  pub parts : s ≡ local ++ 64 ∷ (host ++ 46 ∷ (domain ++ end))

dollar_complete : (s : Text) → End s → dollar s ≡ true
dollar_complete s (inl e) = rw e refl
dollar_complete s (inr e) = rw e refl

email_re_sound : (s : Text) → email_re s ≡ true → IsAddress s
unfolding email_re
email_re_sound s h =
    let (local, s1, local_word, h1, e1) =
      plus_sound (char 64 (plus is_word (char 46 (plus is_word dollar)))) s h in
    let (s2, h2, e2) = char_sound 64 (plus is_word (char 46 (plus is_word dollar))) s1 h1 in
    let (host, s3, host_word, h3, e3) = plus_sound (char 46 (plus is_word dollar)) s2 h2 in
    let (s4, h4, e4) = char_sound 46 (plus is_word dollar) s3 h3 in
    let (domain, end, domain_word, h5, e5) = plus_sound dollar s4 h4 in
    record {
      local = local;
      host = host;
      domain = domain;
      end = end;
      local_word = local_word;
      host_word = host_word;
      domain_word = domain_word;
      end_line = dollar_sound end h5;
      parts = cc (e1, e2, e3, e4, e5);
    }

email_re_complete : (s : Text) → IsAddress s → email_re s ≡ true
unfolding email_re
email_re_complete s a =
    subst (λ t. email_re t ≡ true) (sym a.parts)
      (plus_complete (char 64 (plus is_word (char 46 (plus is_word dollar)))) a.local _ a.local_word
        (plus_complete (char 46 (plus is_word dollar)) a.host _ a.host_word
          (plus_complete dollar a.domain a.end a.domain_word (dollar_complete a.end a.end_line))))

-- The expression matches just the texts of three words, with an at sign between the first two and a full
-- stop between the last two, each of one character or more, none of them an at sign or white space, and
-- at the end perhaps one line break.
pub email_re_iff : (s : Text) → (email_re s ≡ true) ↔ IsAddress s
email_re_iff s = (email_re_sound s, email_re_complete s)
