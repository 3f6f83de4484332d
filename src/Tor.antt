-- ===== src/Tor.antt =====
-- `TorProxy.validate_webhook_url` of backend/app/core/tor_proxy.py. The standard library's `urlparse`
-- and `ip_address` are parameters: what they find in a text is given.
pub mod Policy
use ghostbill.Prelude.{
  Bool, true, false, not, ◌&&◌, ◌||◌, Option, none, some, String, is_some, if◌then◌else◌,
}
use text.Mathlib.Text.{◌==◌}

-- What `urlparse` finds in a URL; an empty part is none.
pub record ParsedUrl : Type 0 where
  pub scheme : String
  pub username : Option String
  pub password : Option String
  pub hostname : Option String

-- The properties of an address of `ipaddress`.
pub record IpAddress : Type 0 where
  pub is_private : Bool
  pub is_loopback : Bool
  pub is_link_local : Bool
  pub is_multicast : Bool
  pub is_reserved : Bool
  pub is_unspecified : Bool

-- `urlparse` and `ip_address`, `none` where they raise; `host.endswith(".onion")`; `settings.tor_only`.
pub record Network : Type 0 where
  pub urlparse : String → Option ParsedUrl
  pub ip_address : String → Option IpAddress
  pub is_onion : String → Bool
  pub tor_only : Bool

-- The error messages, in the order of the checks.
pub data UrlError : Type 0 where
  unreadable bad_scheme has_credentials no_host onion_only internal_address : UrlError

abbrev is_internal : Option IpAddress → Bool
is_internal none = false
is_internal (some a) =
    a.is_private || a.is_loopback || a.is_link_local || a.is_multicast || a.is_reserved
    || a.is_unspecified

-- The checks on the host; `none` is the answer `(True, None)`.
unfoldable pub check_host : Network → String → Option UrlError
check_host net host =
    if net.tor_only && not (net.is_onion host)
    then some onion_only
    else if not (net.is_onion host) && is_internal (net.ip_address host)
    then some internal_address
    else none

abbrev check_hostname : Network → Option String → Option UrlError
check_hostname net none = some no_host
check_hostname net (some host) = check_host net host

unfoldable pub check_parsed : Network → Option ParsedUrl → Option UrlError
unfolding check_host
check_parsed net none = some unreadable
check_parsed net (some parsed) =
    if not (parsed.scheme == "http" || parsed.scheme == "https")
    then some bad_scheme
    else if is_some parsed.username || is_some parsed.password
    then some has_credentials
    else check_hostname net parsed.hostname

unfoldable pub validate_webhook_url : Network → String → Option UrlError
unfolding check_parsed
validate_webhook_url net url = check_parsed net (net.urlparse url)
