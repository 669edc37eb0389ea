-- ===== src/Runtime/PublicUrl.antt =====
-- `validate_public_https_url` of runtime-worker/src/types.rs.
pub mod Brackets
pub mod Remote
use eal_sync.Prelude.{◌≡◌, arith, [], Bool, true, not, ◌||◌, Option, none, some}
use eal_sync.Prelude.Text.{Text, codes, text_eq, to_ascii_lowercase, ends_with, is_some}
use eal_sync.Prelude.Result.{Result, ok, guard, or_fail, ◌>>=◌, ◌>>◌}
use eal_sync.Net.Ip.{IpAddr, is_non_public_ip}
use eal_sync.Net.IpText.{parse_ip}
use eal_sync.Net.Url.{UrlCrate}

pub data UrlError : Type 0 where
  not_absolute not_https has_credentials_or_fragment no_host not_routable : UrlError

-- `host.eq_ignore_ascii_case(name)`
unfoldable pub eq_ignore_ascii_case : Text → Text → Bool
eq_ignore_ascii_case s t = text_eq (to_ascii_lowercase s) (to_ascii_lowercase t)

abbrev is_non_public_address : Option IpAddr → Bool
is_non_public_address none = Bool.false
is_non_public_address (some address) = is_non_public_ip address

unfoldable pub is_local_host : Text → Bool
is_local_host host =
    eq_ignore_ascii_case host (codes "localhost")
    || ends_with (codes ".localhost") host
    || is_non_public_address (parse_ip host)

module _ (crate : UrlCrate) where
  open crate use {Url, parse, scheme, username, password, host_str, fragment}

  unfoldable pub validate_public_https_url : Text → Result UrlError Url
  validate_public_https_url value = do
    url ← or_fail (parse value) UrlError.not_absolute
    guard (text_eq (scheme url) (codes "https")) not_https
    guard
        (not (not (text_eq (username url) []) || is_some (password url) || is_some (fragment url)))
        has_credentials_or_fragment
    host ← or_fail (host_str url) no_host
    guard (not (is_local_host host)) not_routable
    ok url

  -- A URL that passes has the scheme `https`.
  pub validate-https :
      (value : Text) (url : Url)
      → validate_public_https_url value ≡ ok url
      → text_eq (scheme url) (codes "https") ≡ true
  unfolding validate_public_https_url
  validate-https value url e = ground arith
