-- ===== src/Runtime/Envelope.antt =====
-- `CrawlCommandEnvelope::validate` of runtime-worker/src/types.rs. An error is the text that anyhow
-- shows for it. The uuid crate is a parameter: its parser of texts.
pub mod Laws
use eal_sync.Prelude.{
  ℕ, suc, Bool, true, not, ◌&&◌, ◌||◌, List, [], ◌∷◌, Option, none, some, ◌++◌, ◌==◌, ltb,
}
use eal_sync.Prelude.Text.{Text, codes, text_eq, byte_len, is_some}
use eal_sync.Prelude.Json.{
  Json, Items, nil, cons, Fields, as_str, as_object, as_array, as_u64, get, is_finite_number,
}
use eal_sync.Prelude.Result.{Result, ok, guard, or_fail, map_err, ◌>>=◌, ◌>>◌}
use eal_sync.Net.Url.{UrlCrate}
use eal_sync.Queue.Tables.{CrawlJob}
use eal_sync.Runtime.PublicUrl.{
  UrlError, not_absolute, not_https, has_credentials_or_fragment, no_host, not_routable,
  validate_public_https_url,
}

pub record CrawlCommandOutput : Type 0 where
  pub page_ingest : Json
  pub diagnostic : Json

pub record CrawlCommandEnvelope : Type 0 where
  pub protocol_version : Text
  pub page_ingest : Json
  pub diagnostic : Json

abbrev url_message : UrlError → Text
url_message not_absolute = codes "URL must be absolute"
url_message not_https = codes "crawl URLs must use HTTPS"
url_message has_credentials_or_fragment =
    codes "crawl URLs must not contain credentials or fragments"
url_message no_host = codes "crawl URL must contain a host"
url_message not_routable = codes "crawl URL host must be publicly routable"

-- `and_then(Value::as_str)` and the like
abbrev pub and_then {ℓ κ} : {A : Type ℓ} {B : Type κ} → Option A → (A → Option B) → Option B
and_then none f = none
and_then (some a) f = f a

abbrev pub length_items : Items → ℕ
length_items nil = 0
length_items (cons v vs) = suc (length_items vs)

abbrev pub all_finite : Items → Bool
all_finite nil = true
all_finite (cons v vs) = is_finite_number v && all_finite vs

abbrev pub required_keys : List Text
required_keys =
    codes "model"
    ∷ codes "model_version"
    ∷ codes "dimensions"
    ∷ codes "normalization"
    ∷ codes "values"
    ∷ []

-- `contains_key`
abbrev pub has_key : Fields → Text → Bool
has_key fields key = is_some (get key fields)

abbrev pub str_field : Text → Fields → Option Text
str_field key fields = and_then (get key fields) as_str

-- the loop over the required keys
unfoldable pub check_keys : Fields → List Text → Result Text (Unit {0})
check_keys embedding [] = ok tt
check_keys embedding (key ∷ keys) = do
  guard (has_key embedding key) (codes "page_ingest.embedding." ++ key ++ codes " is required")
  check_keys embedding keys

unfoldable pub check_embedding : Fields → Result Text (Unit {0})
check_embedding page = do
  embedding ←
      or_fail (and_then (get (codes "embedding") page) as_object)
        (codes "page_ingest.embedding is required")
  check_keys embedding required_keys
  dimensions ←
      or_fail (and_then (get (codes "dimensions") embedding) as_u64)
        (codes "page_ingest.embedding.dimensions must be an integer")
  values ←
      or_fail (and_then (get (codes "values") embedding) as_array)
        (codes "page_ingest.embedding.values must be an array")
  guard (not (dimensions == 0 || ltb 65_535 dimensions || not (length_items values == dimensions)))
      (codes "page_ingest embedding dimensions do not match values")
  guard (all_finite values) (codes "page_ingest embedding contains a non-finite value")

module _ (crate : UrlCrate) (parse_uuid : Text → Option ℕ) where
  unfoldable pub check_page : CrawlJob → Fields → Result Text (Unit {0})
  check_page job page = do
    source ←
        or_fail (str_field (codes "source_id") page) (codes "page_ingest.source_id is required")
    source_id ← or_fail (parse_uuid source) (codes "page_ingest.source_id must be a UUID")
    guard (source_id == job.source_id)
        (codes "crawl command source_id does not match the leased job")
    canonical_url ←
        or_fail (str_field (codes "canonical_url") page)
          (codes "page_ingest.canonical_url is required")
    url ← map_err url_message (validate_public_https_url crate canonical_url)
    content_hash ←
        or_fail (str_field (codes "content_hash") page)
          (codes "page_ingest.content_hash is required")
    guard (not (ltb (byte_len content_hash) 32 || ltb 256 (byte_len content_hash)))
        (codes "page_ingest.content_hash has an invalid length")

  unfoldable pub validate_envelope :
      CrawlCommandEnvelope → CrawlJob → Result Text CrawlCommandOutput
  validate_envelope envelope job = do
    guard (text_eq envelope.protocol_version (codes "eal-crawl-result/v1"))
        (codes "crawl command returned an unsupported protocol version")
    page ← or_fail (as_object envelope.page_ingest) (codes "page_ingest must be a JSON object")
    check_page job page
    check_embedding page
    ok (record { page_ingest = envelope.page_ingest; diagnostic = envelope.diagnostic })
