-- ===== src/Runtime/PublicUrl/Brackets.antt =====
-- The test of a host against a literal IPv6 address, which `host_str` writes in brackets.
use eal_sync.Prelude.{◌≡◌, refl, false, [], ◌∷◌, ◌++◌}
use mathlib.Core.List.{reverse-append}
use eal_sync.Prelude.Text.{
  Text, codes, text_eq, to_ascii_lower, to_ascii_lowercase, ends_with, starts_with, strip_prefix,
}
use eal_sync.Net.IpText.{parse_ip_bracket}
use eal_sync.Runtime.PublicUrl.{eq_ignore_ascii_case, is_local_host}

not_localhost : (s : Text) → eq_ignore_ascii_case (b'[' ∷ s) (codes "localhost") ≡ false
unfolding eq_ignore_ascii_case to_ascii_lowercase to_ascii_lower text_eq
not_localhost s = refl

not_subdomain : (s : Text) → ends_with (codes ".localhost") (s ++ b']' ∷ []) ≡ false
unfolding ends_with starts_with strip_prefix
not_subdomain s = rw (reverse-append s (b']' ∷ [])) refl

-- No host in brackets counts as local.
pub brackets-pass : (s : Text) → is_local_host (b'[' ∷ s ++ b']' ∷ []) ≡ false
unfolding is_local_host
brackets-pass s =
    rw (not_localhost (s ++ b']' ∷ []), not_subdomain (b'[' ∷ s), parse_ip_bracket (s ++ b']' ∷ []))
      refl
