-- ===== src/Runtime/PublicUrl/Remote.antt =====
-- What `validate_public_https_url` of runtime-worker/src/types.rs says of a URL that it accepts.
use eal_sync.Prelude.{
  ◌<◌, ◌≤◌, ◌≡◌, ◌≢◌, ◌⊎◌, ◌∙◌, sym, ap, false, [], none, some, arith, Option-cases,
  true_is_not_false, inl, inr,
}
use eal_sync.Prelude.Text.{
  Text, codes, text_eq, text_eq→eq, text_eq_refl, to_ascii_lower, to_ascii_lowercase, ends_with,
  is_some,
}
use eal_sync.Net.Ip.{
  Ipv4Addr, IpAddr, v4, v6, is_private, is_loopback_v4, is_link_local, is_documentation,
  is_non_public_ip,
}
use eal_sync.Net.IpText.{parse_ip}
use eal_sync.Prelude.Result.{ok}
use eal_sync.Net.Url.{UrlCrate}
use eal_sync.Runtime.PublicUrl.{validate_public_https_url, eq_ignore_ascii_case, is_local_host}

-- An IPv4 address outside 0.0.0.0/8, 10.0.0.0/8, 127.0.0.0/8, 169.254.0.0/16, 172.16.0.0/12,
-- 192.168.0.0/16, the three blocks for documentation, and everything from 224.0.0.0 on.
pub record IsRemoteV4 (x : Ipv4Addr) : Type 0 where
  pub first : (1 ≤ x.a) × (x.a < 224) × (x.a ≢ 10) × (x.a ≢ 127)
  pub not_link_local : ¬ ((x.a ≡ 169) × (x.b ≡ 254))
  pub not_private_172 : ¬ ((x.a ≡ 172) × (16 ≤ x.b) × (x.b ≤ 31))
  pub not_private_192 : ¬ ((x.a ≡ 192) × (x.b ≡ 168))
  pub not_example :
      ¬ ((x.a ≡ 192) × (x.b ≡ 0) × (x.c ≡ 2))
      × ¬ ((x.a ≡ 198) × (x.b ≡ 51) × (x.c ≡ 100))
      × ¬ ((x.a ≡ 203) × (x.b ≡ 0) × (x.c ≡ 113))

abbrev pub IsRemoteAddress : IpAddr → Type 0
IsRemoteAddress (v4 x) = IsRemoteV4 x
IsRemoteAddress (v6 x) = is_non_public_ip (v6 x) ≡ false

remote_address : (a : IpAddr) → is_non_public_ip a ≡ false → IsRemoteAddress a
unfolding is_non_public_ip is_private is_loopback_v4 is_link_local is_documentation
remote_address (v6 x) h = h
remote_address (v4 x) h = record {
  first = ground (arith, h);
  not_link_local = λ e. ground (arith, h, e);
  not_private_172 = λ e. ground (arith, h, e);
  not_private_192 = λ e. ground (arith, h, e);
  not_example = (λ e. ground (arith, h, e), λ e. ground (arith, h, e), λ e. ground (arith, h, e));
}

-- No host that the worker knows for a local one. A host in brackets is no address to `parse_ip`, so
-- nothing is said of the address of such a host.
pub record IsRemoteHost (host : Text) : Type 0 where
  pub not_localhost : to_ascii_lowercase host ≢ codes "localhost"
  pub not_below : ends_with (codes ".localhost") host ≡ false
  pub address : (parse_ip host ≡ none) ⊎ (a : IpAddr) × (parse_ip host ≡ some a) × IsRemoteAddress a

remote_host : (host : Text) → is_local_host host ≡ false → IsRemoteHost host
unfolding is_local_host eq_ignore_ascii_case to_ascii_lowercase to_ascii_lower
remote_host host h = record {
  not_localhost = λ e. true_is_not_false (
      sym (text_eq_refl (codes "localhost"))
      ∙ ap (λ s. text_eq s (codes "localhost")) (sym e)
      ∙ ground arith);
  not_below = ground arith;
  address = elim (Option-cases (parse_ip host)) [
    | inl name ↦ inl name
    | inr (a, literal) ↦ inr (a, literal, remote_address a (ground (arith, literal)))
  ];
}

module _ (crate : UrlCrate) where
  -- An absolute HTTPS URL without user, password and fragment, to a host that is not known to be local.
  pub record IsRemoteUrl (value : Text) : Type 0 where
    pub url : crate.Url
    pub host : Text
    pub parsed : crate.parse value ≡ some url
    pub https : crate.scheme url ≡ codes "https"
    pub no_user : crate.username url ≡ []
    pub no_password : is_some (crate.password url) ≡ false
    pub no_fragment : is_some (crate.fragment url) ≡ false
    pub has_host : crate.host_str url ≡ some host
    pub remote : IsRemoteHost host

  pub public_url-IsRemoteUrl :
      (value : Text) {url : crate.Url}
      → validate_public_https_url crate value ≡ ok url
      → IsRemoteUrl value
  unfolding validate_public_https_url
  public_url-IsRemoteUrl value e = elim (Option-cases (crate.parse value)) [
    | inl malformed ↦ absurd (ground (arith, malformed))
    | inr (url, parsed) ↦ elim (Option-cases (crate.host_str url)) [
      | inl no_host ↦ absurd (ground (arith, parsed, no_host))
      | inr (host, has_host) ↦ record {
        url = url;
        host = host;
        parsed = parsed;
        https = text_eq→eq (crate.scheme url) (codes "https") (ground (arith, parsed, has_host));
        no_user = text_eq→eq (crate.username url) [] (ground (arith, parsed, has_host));
        no_password = ground (arith, parsed, has_host);
        no_fragment = ground (arith, parsed, has_host);
        has_host = has_host;
        remote = remote_host host (ground (arith, parsed, has_host));
      }
    ]
  ]
