-- ===== src/Ingestion/Content/Links.antt =====
-- `discover_links` of src/ingestion/content.rs. `canonicalize_url` of eal_semantic is an argument.
pub mod Laws
use eal_sync.Prelude.{
  ℕ, Bool, true, false, not, ◌&&◌, ◌||◌, List, [], ◌∷◌, Option, none, some, length, leb, within,
  if◌then◌else◌,
}
use eal_sync.Prelude.Text.{Text, codes, text_eq, starts_with, is_empty, is_some}
use eal_sync.Prelude.Search.{text_ltb}
use eal_sync.Prelude.Result.{Result, ok, err, guard, ◌>>=◌, ◌>>◌}
use eal_sync.Net.Url.{UrlCrate}
use eal_sync.Ingestion.Error.{IngestionError, error}
use eal_sync.Ingestion.Scope.{parse_http_url, host_of}
use eal_sync.Ingestion.Content.Hrefs.{extract_href_values}

pub record DiscoveredLink : Type 0 where
  pub url : Text
  pub canonical_url : Text

-- `links.entry(canonical_url).or_insert(link)` on a map in the order of its keys
unfoldable pub insert_link : DiscoveredLink → List DiscoveredLink → List DiscoveredLink
insert_link link [] = link ∷ []
insert_link link (m ∷ links) =
    let rest = insert_link link links in
    if text_ltb link.canonical_url m.canonical_url
    then link ∷ m ∷ links
    else if text_eq link.canonical_url m.canonical_url
    then m ∷ links
    else m ∷ rest

unfoldable pub is_skipped : Text → Bool
is_skipped href =
    starts_with (codes "#") href
    || starts_with (codes "mailto:") href
    || starts_with (codes "javascript:") href
    || starts_with (codes "data:") href

-- `host == Some(name)`
abbrev pub is_host : Text → Option Text → Bool
is_host name none = false
is_host name (some host) = text_eq host name

module _ (crate : UrlCrate) where
  open crate use {Url, scheme, username, password}

  unfoldable pub is_web : Url → Bool
  is_web url =
      (text_eq (scheme url) (codes "http") || text_eq (scheme url) (codes "https"))
      && is_empty (username url)
      && not (is_some (password url))

module _ (crate : UrlCrate) (canonicalize_url : Text → Option Text) where
  open crate use {Url, as_str, host_str, join, without_fragment}

  -- the checks on a candidate; `none` is `continue`
  unfoldable pub check_candidate : Bool → Text → Url → Option DiscoveredLink
  check_candidate same_host_only base_host candidate =
      if not (is_web crate candidate)
        || (same_host_only && not (is_host base_host (host_str candidate)))
      then none
      else elim (canonicalize_url (as_str candidate)) [
        | none ↦ none
        | some canonical ↦ some (record { url = as_str candidate; canonical_url = canonical })
      ]

  -- the body of the loop up to the map
  unfoldable pub link_of : Bool → Url → Text → Text → Option DiscoveredLink
  link_of same_host_only base base_host href =
      if is_skipped href then none else elim (join base href) [
        | none ↦ none
        | some joined ↦ check_candidate same_host_only base_host (without_fragment joined)
      ]

  unfoldable pub collect_links :
      Bool → ℕ → Url → Text → List Text → List DiscoveredLink → List DiscoveredLink
  collect_links same_host_only max_links base base_host [] links = links
  collect_links same_host_only max_links base base_host (href ∷ hrefs) links =
      elim (link_of same_host_only base base_host href) [
        | none ↦ collect_links same_host_only max_links base base_host hrefs links
        | some link ↦
            let next = insert_link link links in
            let rest = collect_links same_host_only max_links base base_host hrefs next in
            if leb max_links (length next) then next else rest
      ]

  unfoldable pub discover_links :
      Text → Text → Bool → ℕ → Result IngestionError (List DiscoveredLink)
  discover_links base_url html same_host_only max_links = do
    guard (within 1 10_000 max_links) (error "invalid_link_limit")
    base ← parse_http_url crate base_url
    base_host ← host_of crate base
    ok (collect_links same_host_only max_links base base_host (extract_href_values html) [])
