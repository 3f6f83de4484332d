-- ===== src/Tor/Policy.antt =====
-- What an accepted webhook URL is.
use text.Mathlib.TextEquality.{eq_iff}
use ghostbill.Prelude.{true, false, ◌≡◌, ◌⊎◌, none, some, String, arith, inl, inr, Option-cases}
use ghostbill.Tor.{Network, ParsedUrl, IpAddress, validate_webhook_url, check_parsed, check_host}

-- An address that no webhook may go to.
pub record IsInternal (a : IpAddress) : Type 0 where
  pub flagged :
      (a.is_private ≡ true)
      ⊎ (a.is_loopback ≡ true)
      ⊎ (a.is_link_local ≡ true)
      ⊎ (a.is_multicast ≡ true)
      ⊎ (a.is_reserved ≡ true)
      ⊎ (a.is_unspecified ≡ true)

host_policy :
    (net : Network) (host : String)
    → check_host net host ≡ none
    → (net.tor_only ≡ true → net.is_onion host ≡ true)
      × (net.is_onion host ≡ false
          → (a : IpAddress) → net.ip_address host ≡ some a
          → ¬ IsInternal a)
unfolding check_host
host_policy net host accepted =
    (ground arith, λ plain a e internal. ground (arith, internal.flagged))

-- An accepted webhook URL is readable, has the scheme http or https, carries no user and no password
-- and has a host; in Tor-only mode the host is an onion one; and a host that is no onion one and is
-- written as an address is not an internal address.
pub validate_webhook_url_policy :
    (net : Network) (url : String)
    → validate_webhook_url net url ≡ none
    → (parsed : ParsedUrl) × (host : String) × (net.urlparse url ≡ some parsed)
      × ((parsed.scheme ≡ "http") ⊎ (parsed.scheme ≡ "https"))
      × (parsed.username ≡ none)
      × (parsed.password ≡ none)
      × (parsed.hostname ≡ some host)
      × (net.tor_only ≡ true → net.is_onion host ≡ true)
      × (net.is_onion host ≡ false
          → (a : IpAddress) → net.ip_address host ≡ some a
          → ¬ IsInternal a)
unfolding validate_webhook_url
validate_webhook_url_policy net url accepted = elim (Option-cases (net.urlparse url)) [
  | inl unread ↦ ground (arith, unread)
  | inr (parsed, read) ↦ elim (Option-cases parsed.hostname) [
    | inl nameless ↦ ground (arith, read, nameless)
    | inr (host, named) ↦
        let clean : check_host net host ≡ none =
          unfold check_parsed in ground (arith, read, named) in
        (
          parsed,
          host,
          read,
          unfold check_parsed in
              ground
                (arith, read, named, eq_iff parsed.scheme "http", eq_iff parsed.scheme "https"),
          unfold check_parsed in ground (arith, read, named),
          unfold check_parsed in ground (arith, read, named),
          named,
          (host_policy net host clean).0,
          (host_policy net host clean).1,
        )
  ]
]
