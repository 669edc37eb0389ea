-- ===== src/Tests/Pages.antt =====
-- Runs of what becomes of a page.
use eal_sync.Prelude.{List, ◌≤◌, ◌≡◌, refl, true, false, [], ◌∷◌, none, some, keep, length, arith}
use eal_sync.Prelude.Text.{
  Text, codes, is_whitespace, to_ascii_lower, to_ascii_lowercase, is_ascii_digit, byte_len, trim,
  trim_end, drop_while, drop_end_while,
}
use eal_sync.Prelude.Result.{ok, err}
use eal_sync.Net.Body.{read_bounded, delivered}
use eal_sync.Net.Body.Laws.{read_bounded-exact}
use eal_sync.Ingestion.Input.{EmbeddingInput, SemanticDocument, finite, sentence, validate_input}
use eal_sync.Ingestion.Content.{collapse_whitespace}
use eal_sync.Ingestion.Content.Laws.{IsCollapsed, is_word_char, collapse_whitespace-IsCollapsed}
use eal_sync.Prelude.Json.{Json, object, field, string, end}
use eal_sync.Ingestion.Content.Fragments.{check_limits, collect_json_text}
use eal_sync.Ingestion.Content.Fragments.Limits.{nesting, collect_json_text_bounded}
use eal_sync.Ingestion.Revision.{
  decide_revision, unchanged, store_revision, is_ascii_hexdigit, validate_sha256, check_ordinals,
  validate_embedding_inputs,
}
use eal_sync.Ingestion.Revision.Laws.{IsSha256, stored-unchanged}

read_bounded-exact_example :
    read_bounded (λ e. e) (codes "large") 4 (delivered ((5 ∷ 6 ∷ []) ∷ (7 ∷ 8 ∷ 9 ∷ []) ∷ []))
    ≡ err (codes "large")
read_bounded-exact_example =
    read_bounded-exact (λ e. e) (codes "large") 4 (omega arith)
      ((5 ∷ 6 ∷ []) ∷ (7 ∷ 8 ∷ 9 ∷ []) ∷ [])

collapse_whitespace-IsCollapsed_example :
    IsCollapsed true (collapse_whitespace (codes "  a  b "))
    × (keep is_word_char (collapse_whitespace (codes "  a  b "))
        ≡ keep is_word_char (codes "  a  b "))
    × (collapse_whitespace (collapse_whitespace (codes "  a  b "))
        ≡ collapse_whitespace (codes "  a  b "))
collapse_whitespace-IsCollapsed_example = collapse_whitespace-IsCollapsed (codes "  a  b ")

abbrev digest : Text
digest = codes "AAAAAAAAAAAAAAAABBBBBBBBBBBBBBBB0000000000000000cccccccccccccccc"

abbrev lower_digest : Text
lower_digest = codes "aaaaaaaaaaaaaaaabbbbbbbbbbbbbbbb0000000000000000cccccccccccccccc"

digest-IsSha256 : IsSha256 digest
unfolding byte_len is_ascii_hexdigit is_ascii_digit
digest-IsSha256 = (refl, refl)

lower_digest-IsSha256 : IsSha256 lower_digest
unfolding byte_len is_ascii_hexdigit is_ascii_digit
lower_digest-IsSha256 = (refl, refl)

stores_digest : decide_revision none digest ≡ ok (store_revision none lower_digest)
unfolding decide_revision validate_sha256 byte_len is_ascii_hexdigit is_ascii_digit
    to_ascii_lowercase to_ascii_lower
stores_digest = refl

stored-unchanged_example :
    (decide_revision (some lower_digest) digest ≡ ok unchanged)
    × IsSha256 lower_digest
    × (to_ascii_lowercase lower_digest ≡ lower_digest)
stored-unchanged_example = stored-unchanged none digest none lower_digest stores_digest

abbrev one_input : EmbeddingInput
one_input = record {
  kind = sentence;
  ordinal = 0;
  text = codes "a launch";
  weight = finite false 1 149;
}

inputs_pass : validate_embedding_inputs (one_input ∷ []) ≡ ok tt
unfolding validate_embedding_inputs check_ordinals validate_input trim trim_end drop_while
    drop_end_while is_whitespace
inputs_pass = refl

abbrev one_document : SemanticDocument
one_document = record {
  title = none;
  content_text = codes "a launch";
  keywords = [];
  entities = [];
  embedding_inputs = one_input ∷ [];
}

abbrev feed : Json
feed = object (field (codes "title") (string (codes "news")) end)

abbrev feed_texts : List Text
feed_texts = codes "title" ∷ codes "news" ∷ []

collects_feed : collect_json_text feed 0 [] ≡ ok feed_texts
unfolding collect_json_text check_limits
collects_feed = refl

collect_json_text_bounded_example : (length feed_texts ≤ 20_000) × (nesting feed ≤ 64)
collect_json_text_bounded_example = collect_json_text_bounded feed feed_texts collects_feed
