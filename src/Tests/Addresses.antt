-- ===== src/Tests/Addresses.antt =====
-- Runs of the address tests and of the checks of a host.
use eal_sync.Prelude.{◌≡◌, refl, true, false, not, [], ◌∷◌, some, any, arith}
use eal_sync.Prelude.Text.{
  codes, trim, trim_end, drop_while, drop_end_while, is_whitespace, to_ascii_lower,
  to_ascii_lowercase, byte_len, contains, starts_with, ends_with, strip_prefix, split,
  is_ascii_alphanumeric, is_ascii_alphabetic, is_ascii_digit,
}
use eal_sync.Prelude.Result.{ok}
use eal_sync.Net.Ip.{Ipv4Addr, IpAddr, v4, is_public_ipv4, is_public_ip, is_non_public_ip}
use eal_sync.Net.Ip.Blocks.{lies_in, reserved_blocks, IsOctets, is_public_ipv4-blocks}
use eal_sync.Net.Ip.Compare.{public-passes_worker}
use eal_sync.Net.IpText.{parse_ip}
use eal_sync.Runtime.PublicUrl.{is_local_host}
use eal_sync.Runtime.PublicUrl.Brackets.{brackets-pass}
use eal_sync.Ingestion.Address.{
  insert_address, collect_addresses, public_addresses, resolve_public_addresses, select_address,
}
use eal_sync.Ingestion.Scope.{is_label, normalize_host}
use eal_sync.Ingestion.Scope.Hosts.{IsDnsName, normalize_host-IsDnsName}

abbrev cgnat : Ipv4Addr
cgnat = record { a = 100; b = 64; c = 1; d = 1 }

abbrev resolver : IpAddr
resolver = v4 (record { a = 1; b = 1; c = 1; d = 1 })

abbrev private_address : IpAddr
private_address = v4 (record { a = 10; b = 0; c = 0; d = 1 })

cgnat-IsOctets : IsOctets cgnat
cgnat-IsOctets = record {
  a_lt = omega arith;
  b_lt = omega arith;
  c_lt = omega arith;
  d_lt = omega arith;
}

is_public_ipv4-blocks_example : is_public_ipv4 cgnat ≡ not (any (lies_in cgnat) reserved_blocks)
is_public_ipv4-blocks_example = is_public_ipv4-blocks cgnat cgnat-IsOctets

resolver_public : is_public_ip resolver ≡ true
unfolding is_public_ip is_public_ipv4
resolver_public = refl

public-passes_worker_example : is_non_public_ip resolver ≡ false
public-passes_worker_example = public-passes_worker resolver resolver_public

brackets-pass_example : is_local_host (codes "[::1]") ≡ false
brackets-pass_example = brackets-pass (codes "::1")

resolves : resolve_public_addresses (some (private_address ∷ resolver ∷ [])) ≡ ok (resolver ∷ [])
unfolding resolve_public_addresses public_addresses collect_addresses insert_address is_public_ip
    is_public_ipv4
resolves = refl

selects : select_address (resolver ∷ []) ≡ some resolver
unfolding select_address
selects = refl

normalizes : normalize_host (codes " News.Example. ") ≡ ok (codes "news.example")
unfolding normalize_host is_label trim trim_end drop_while drop_end_while is_whitespace
    to_ascii_lowercase to_ascii_lower byte_len contains starts_with ends_with strip_prefix split
    is_ascii_alphanumeric is_ascii_alphabetic is_ascii_digit parse_ip
normalizes = refl

normalize_host-IsDnsName_example : IsDnsName (codes "news.example")
normalize_host-IsDnsName_example = normalize_host-IsDnsName (codes " News.Example. ") normalizes
