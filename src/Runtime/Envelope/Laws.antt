-- ===== src/Runtime/Envelope/Laws.antt =====
-- What a result of the crawl command has been checked for when the worker posts it.
use eal_sync.Prelude.{ℕ, ◌≤◌, ◌≡◌, true, Option, some, arith, Option-cases, inl, inr}
use eal_sync.Prelude.Text.{Text, codes, byte_len, text_eq→eq}
use eal_sync.Prelude.Json.{Items, Fields, as_object, as_array, as_u64, get}
use eal_sync.Prelude.Result.{ok, Result-cases}
use eal_sync.Net.Url.{UrlCrate}
use eal_sync.Queue.Tables.{CrawlJob}
use eal_sync.Runtime.PublicUrl.Remote.{IsRemoteUrl, public_url-IsRemoteUrl}
use eal_sync.Runtime.PublicUrl.{validate_public_https_url}
use eal_sync.Runtime.Envelope.{
  CrawlCommandEnvelope, CrawlCommandOutput, and_then, length_items, all_finite, required_keys,
  str_field, check_keys, check_page, check_embedding, validate_envelope,
}

-- The embedding has as many values as it has dimensions, and they are finite.
pub record IsEmbedding (page : Fields) : Type 0 where
  pub embedding : Fields
  pub values : Items
  pub has_embedding : and_then (get (codes "embedding") page) as_object ≡ some embedding
  pub has_keys : check_keys embedding required_keys ≡ ok tt
  pub has_values : and_then (get (codes "values") embedding) as_array ≡ some values
  pub has_dimensions :
      and_then (get (codes "dimensions") embedding) as_u64 ≡ some (length_items values)
  pub at_least : 1 ≤ length_items values
  pub at_most : length_items values ≤ 65_535
  pub finite : all_finite values ≡ true

module _ (page : Fields) where
  check_embedding-IsEmbedding : check_embedding page ≡ ok tt → IsEmbedding page
  unfolding check_embedding
  check_embedding-IsEmbedding e =
      elim (Option-cases (and_then (get (codes "embedding") page) as_object)) [
        | inl absent ↦ absurd (ground (arith, absent))
        | inr (embedding, found) ↦ elim (Result-cases (check_keys embedding required_keys)) [
          | inl (x, missing) ↦ absurd (ground (arith, found, missing))
          | inr (u, keys) ↦
              elim (Option-cases (and_then (get (codes "dimensions") embedding) as_u64)) [
                | inl absent ↦ absurd (ground (arith, found, keys, absent))
                | inr (dimensions, sized) ↦
                    elim (Option-cases (and_then (get (codes "values") embedding) as_array)) [
                      | inl absent ↦ absurd (ground (arith, found, keys, sized, absent))
                      | inr (values, listed) ↦
                          let same : dimensions ≡ length_items values =
                            ground (arith, found, keys, sized, listed) in
                          record {
                            embedding = embedding;
                            values = values;
                            has_embedding = found;
                            has_keys = keys;
                            has_values = listed;
                            has_dimensions = ground (arith, sized, same);
                            at_least = ground (arith, found, keys, sized, listed);
                            at_most = ground (arith, found, keys, sized, listed);
                            finite = ground (arith, found, keys, sized, listed);
                          }
                    ]
              ]
        ]
      ]

module _ (crate : UrlCrate) (parse_uuid : Text → Option ℕ) (job : CrawlJob) where
  -- The page is for the source of the job, and its canonical URL is HTTPS to a host that is not known
  -- to be local.
  pub record IsPage (page : Fields) : Type 0 where
    pub source : Text
    pub canonical_url : Text
    pub content_hash : Text
    pub has_source : str_field (codes "source_id") page ≡ some source
    pub same_source : parse_uuid source ≡ some job.source_id
    pub has_url : str_field (codes "canonical_url") page ≡ some canonical_url
    pub remote_url : IsRemoteUrl crate canonical_url
    pub has_hash : str_field (codes "content_hash") page ≡ some content_hash
    pub hash_min : 32 ≤ byte_len content_hash
    pub hash_max : byte_len content_hash ≤ 256

  check_page-IsPage : (page : Fields) → check_page crate parse_uuid job page ≡ ok tt → IsPage page
  unfolding check_page
  check_page-IsPage page e = elim (Option-cases (str_field (codes "source_id") page)) [
    | inl absent ↦ absurd (ground (arith, absent))
    | inr (source, named) ↦ elim (Option-cases (parse_uuid source)) [
      | inl malformed ↦ absurd (ground (arith, named, malformed))
      | inr (id, parsed) ↦ elim (Option-cases (str_field (codes "canonical_url") page)) [
        | inl absent ↦ absurd (ground (arith, named, parsed, absent))
        | inr (canonical_url, located) ↦
            elim (Result-cases (validate_public_https_url crate canonical_url)) [
              | inl (x, refused) ↦ absurd (ground (arith, named, parsed, located, refused))
              | inr (url, checked) ↦ elim (Option-cases (str_field (codes "content_hash") page)) [
                | inl absent ↦ absurd (ground (arith, named, parsed, located, checked, absent))
                | inr (content_hash, hashed) ↦
                    let same : id ≡ job.source_id =
                      ground (arith, named, parsed, located, checked, hashed) in
                    record {
                      source = source;
                      canonical_url = canonical_url;
                      content_hash = content_hash;
                      has_source = named;
                      same_source = ground (arith, parsed, same);
                      has_url = located;
                      remote_url = public_url-IsRemoteUrl crate canonical_url checked;
                      has_hash = hashed;
                      hash_min = ground (arith, named, parsed, located, checked, hashed);
                      hash_max = ground (arith, named, parsed, located, checked, hashed);
                    }
              ]
            ]
      ]
    ]
  ]

  pub record IsAccepted (envelope : CrawlCommandEnvelope) (output : CrawlCommandOutput)
      : Type 0 where
    pub page : Fields
    pub is_object : as_object envelope.page_ingest ≡ some page
    pub version : envelope.protocol_version ≡ codes "eal-crawl-result/v1"
    pub page_ok : IsPage page
    pub embedding_ok : IsEmbedding page
    pub unchanged :
        (output.page_ingest ≡ envelope.page_ingest) × (output.diagnostic ≡ envelope.diagnostic)

  -- A result that is accepted has the version of the protocol and is for the source of the leased job.
  -- Its canonical URL is HTTPS, without user, password and fragment, to a host that is not `localhost`
  -- in any case of its letters, does not end in `.localhost`, and, where `parse_ip` reads it as an IPv4
  -- address, lies outside the private, loopback, link-local, documentation and reserved blocks; where it
  -- reads an IPv6 address, `is_non_public_ip` is false of it, and of a host in brackets nothing is said.
  -- It has a content hash of 32 to 256 bytes and an embedding of 1 to 65535 finite values, as many as
  -- its dimensions; and it is passed on as it came.
  pub validate_envelope-IsAccepted :
      (envelope : CrawlCommandEnvelope) (output : CrawlCommandOutput)
      → validate_envelope crate parse_uuid envelope job ≡ ok output
      → IsAccepted envelope output
  unfolding validate_envelope
  validate_envelope-IsAccepted envelope output e =
      elim (Option-cases (as_object envelope.page_ingest)) [
        | inl scalar ↦ absurd (ground (arith, scalar))
        | inr (page, found) ↦ elim (Result-cases (check_page crate parse_uuid job page)) [
          | inl (x, refused) ↦ absurd (ground (arith, found, refused))
          | inr (u, paged) ↦ elim (Result-cases (check_embedding page)) [
            | inl (x, refused) ↦ absurd (ground (arith, found, paged, refused))
            | inr (v, embedded) ↦ record {
              page = page;
              is_object = found;
              version =
                  text_eq→eq envelope.protocol_version (codes "eal-crawl-result/v1") (ground arith);
              page_ok = check_page-IsPage page paged;
              embedding_ok = check_embedding-IsEmbedding page embedded;
              unchanged = ground (arith, found, paged, embedded);
            }
          ]
        ]
      ]
