-- ===== src/Ingestion/Content/Links/Laws.antt =====
-- What `discover_links` returns of a page.
use eal_sync.Prelude.{
  ℕ, suc, ◌≤◌, ◌<◌, ◌≡◌, sym, ap, ◌∙◌, Bool, true, false, not, ◌&&◌, ◌||◌, List, [], ◌∷◌, Option,
  some, length, leb, within, All, arith, Bool-cases, Option-cases, inl, inr,
}
use eal_sync.Prelude.Text.{Text, text_eq}
use eal_sync.Prelude.Search.{text_ltb}
use eal_sync.Prelude.Search.Order.{text_ltb_total}
use eal_sync.Prelude.Member.{Member, All-intro}
use eal_sync.Prelude.Result.{ok, Result-cases}
use eal_sync.Net.Url.{UrlCrate}
use eal_sync.Ingestion.Scope.{parse_http_url}
use eal_sync.Ingestion.Content.Hrefs.{extract_href_values}
use eal_sync.Ingestion.Content.Links.{
  DiscoveredLink, insert_link, is_skipped, is_host, is_web, check_candidate, link_of, collect_links,
  discover_links,
}

-- Each canonical URL is less than the next one.
abbrev pub IsOrdered : List DiscoveredLink → Type 0
IsOrdered [] = Unit
IsOrdered (a ∷ []) = Unit
IsOrdered (a ∷ b ∷ links) =
    (text_ltb a.canonical_url b.canonical_url ≡ true) × IsOrdered (b ∷ links)

insert_link-length :
    (link : DiscoveredLink) (links : List DiscoveredLink)
    → length (insert_link link links) ≤ suc (length links)
unfolding insert_link
insert_link-length link [] = omega arith
insert_link-length link (m ∷ links) = ground (arith, insert_link-length link links)

insert_link-All :
    (P : DiscoveredLink → Type 0) (link : DiscoveredLink) (links : List DiscoveredLink)
    → P link
    → All P links
    → All P (insert_link link links)
unfolding insert_link
insert_link-All P link [] p ps = (p, tt)
insert_link-All P link (m ∷ links) p (q, qs) =
    elim (Bool-cases (text_ltb link.canonical_url m.canonical_url)) [
      | inl less ↦ rw less (p, (q, qs))
      | inr more ↦ elim (Bool-cases (text_eq link.canonical_url m.canonical_url)) [
        | inl same ↦ rw (more, same) (q, qs)
        | inr other ↦ rw (more, other) (q, insert_link-All P link links p qs)
      ]
    ]

insert_below :
    (m link : DiscoveredLink) (links : List DiscoveredLink)
    → IsOrdered (m ∷ links)
    → text_ltb m.canonical_url link.canonical_url ≡ true
    → IsOrdered (m ∷ insert_link link links)
unfolding insert_link
insert_below m link [] h k = (k, tt)
insert_below m link (n ∷ links) (first, others) k =
    elim (Bool-cases (text_ltb link.canonical_url n.canonical_url)) [
      | inl less ↦ rw less (k, (less, others))
      | inr more ↦ elim (Bool-cases (text_eq link.canonical_url n.canonical_url)) [
        | inl same ↦ rw (more, same) (first, others)
        | inr other ↦
            let above = text_ltb_total link.canonical_url n.canonical_url more other in
            rw (more, other) (first, insert_below n link links others above)
      ]
    ]

insert_link-IsOrdered :
    (link : DiscoveredLink) (links : List DiscoveredLink)
    → IsOrdered links
    → IsOrdered (insert_link link links)
unfolding insert_link
insert_link-IsOrdered link [] h = tt
insert_link-IsOrdered link (m ∷ links) h =
    elim (Bool-cases (text_ltb link.canonical_url m.canonical_url)) [
      | inl less ↦ rw less (less, h)
      | inr more ↦ elim (Bool-cases (text_eq link.canonical_url m.canonical_url)) [
        | inl same ↦ rw (more, same) h
        | inr other ↦
            let above = text_ltb_total link.canonical_url m.canonical_url more other in
            rw (more, other) (insert_below m link links h above)
      ]
    ]

module _ (crate : UrlCrate) (canonicalize_url : Text → Option Text) where
  open crate use {Url, as_str, host_str, join, without_fragment}

  -- What a link promises: a value of the page that is not skipped, joined to the base, is an http or
  -- https URL without user information, of the base's host if that is asked, and the link holds its
  -- text and its canonical form.
  abbrev pub IsLinkOf : Bool → Url → Text → Text → DiscoveredLink → Type 0
  IsLinkOf same_host_only base base_host href link =
      (joined : Url) × (is_skipped href ≡ false)
      × (join base href ≡ some joined)
      × (is_web crate (without_fragment joined) ≡ true)
      × ((same_host_only && not (is_host base_host (host_str (without_fragment joined)))) ≡ false)
      × (link.url ≡ as_str (without_fragment joined))
      × (canonicalize_url (as_str (without_fragment joined)) ≡ some link.canonical_url)

  link_of_sound :
      (same_host_only : Bool) (base : Url) (base_host href : Text) (link : DiscoveredLink)
      → link_of crate canonicalize_url same_host_only base base_host href ≡ some link
      → IsLinkOf same_host_only base base_host href link
  unfolding link_of check_candidate
  link_of_sound same_host_only base base_host href link e = elim (Bool-cases (is_skipped href)) [
    | inl skip ↦ absurd (ground (arith, e, skip))
    | inr kept ↦ elim (Option-cases (join base href)) [
      | inl nothing ↦ absurd (ground (arith, e, kept, nothing))
      | inr (joined, found) ↦
          elim (Option-cases (canonicalize_url (as_str (without_fragment joined)))) [
            | inl nothing ↦ absurd (ground (arith, e, kept, found, nothing))
            | inr (canonical, named) ↦
                let candidate = without_fragment joined in
                let off_site = same_host_only && not (is_host base_host (host_str candidate)) in
                elim (Bool-cases (not (is_web crate candidate) || off_site)) [
                  | inl bad ↦ absurd (ground (arith, e, kept, found, named, bad))
                  | inr good ↦
                      let web : is_web crate candidate ≡ true = ground (arith, good) in
                      let near : off_site ≡ false = ground (arith, good) in
                      let text : link.url ≡ as_str candidate =
                        ground (arith, e, kept, found, named, good) in
                      let name : link.canonical_url ≡ canonical =
                        ground (arith, e, kept, found, named, good) in
                      (joined, kept, found, web, near, text, named ∙ ap some (sym name))
                ]
          ]
    ]
  ]

  -- The link comes from one of the values.
  abbrev pub IsLinkIn : Bool → Url → Text → List Text → DiscoveredLink → Type 0
  IsLinkIn same_host_only base base_host hrefs link =
      (href : Text) × Member href hrefs × IsLinkOf same_host_only base base_host href link

  collect_links_sound :
      (P : DiscoveredLink → Type 0) (same_host_only : Bool) (max_links : ℕ) (base : Url)
      (base_host : Text) (hrefs : List Text) (links : List DiscoveredLink)
      → All
          (λ href.
            (link : DiscoveredLink)
            → link_of crate canonicalize_url same_host_only base base_host href ≡ some link
            → P link)
          hrefs
      → length links < max_links
      → IsOrdered links
      → All P links
      → let result =
          collect_links crate canonicalize_url same_host_only max_links base base_host hrefs
            links in
        (length result ≤ max_links) × IsOrdered result × All P result
  unfolding collect_links
  collect_links_sound P same_host_only max_links base base_host [] links fits few order ps =
      (omega (arith, few), order, ps)
  collect_links_sound P same_host_only max_links base base_host (href ∷ hrefs) links (fit, fits) few
        order ps =
      elim (Option-cases (link_of crate canonicalize_url same_host_only base base_host href)) [
        | inl skip ↦
            rw (skip, collect_links)
              (collect_links_sound P same_host_only max_links base base_host hrefs links fits few
                order ps)
        | inr (link, found) ↦
            let grown = insert_link-length link links in
            let ordered = insert_link-IsOrdered link links order in
            let all_ps = insert_link-All P link links (fit link found) ps in
            elim (Bool-cases (leb max_links (length (insert_link link links)))) [
              | inl full ↦
                  rw (found, full, collect_links) (omega (arith, few, grown), ordered, all_ps)
              | inr room ↦
                  rw (found, room, collect_links)
                    (collect_links_sound P same_host_only max_links base base_host hrefs
                      (insert_link link links) fits (ground (arith, room)) ordered all_ps)
            ]
      ]

  -- The links of a page are at most as many as asked for, in strictly increasing order of their
  -- canonical URLs, so that no two share one. Each comes from a `href` value of the page that is not
  -- skipped and that joins to an http or https URL without user information, of the base's host if
  -- that is asked; it is that URL without its fragment, and its canonical form.
  pub discover_links_sound :
      (base_url html : Text) (same_host_only : Bool) (max_links : ℕ) (links : List DiscoveredLink)
      → discover_links crate canonicalize_url base_url html same_host_only max_links ≡ ok links
      → (base : Url) × (base_host : Text) × (parse_http_url crate base_url ≡ ok base)
        × (host_str base ≡ some base_host)
        × (length links ≤ max_links)
        × IsOrdered links
        × All (IsLinkIn same_host_only base base_host (extract_href_values html)) links
  unfolding discover_links
  discover_links_sound base_url html same_host_only max_links links e =
      elim (Bool-cases (within 1 10_000 max_links)) [
        | inr refused ↦ absurd (ground (arith, e, refused))
        | inl limit ↦ elim (Result-cases (parse_http_url crate base_url)) [
          | inl (why, bad) ↦ absurd (ground (arith, e, limit, bad))
          | inr (base, parsed) ↦ elim (Option-cases (host_str base)) [
            | inl nothing ↦ absurd (ground (arith, e, limit, parsed, nothing))
            | inr (base_host, named) ↦
                let hrefs = extract_href_values html in
                let sound =
                  collect_links_sound (IsLinkIn same_host_only base base_host hrefs) same_host_only
                    max_links base base_host hrefs []
                    (All-intro _ hrefs (λ href m link found.
                      (href, m, link_of_sound same_host_only base base_host href link found)))
                    (ground (arith, limit)) tt tt in
                let same : collect_links crate canonicalize_url same_host_only max_links base
                      base_host hrefs []
                    ≡ links =
                  ground (arith, e, limit, parsed, named) in
                let (few, order, all_sound) = rw same at sound in
                (base, base_host, parsed, named, few, order, all_sound)
          ]
        ]
      ]
