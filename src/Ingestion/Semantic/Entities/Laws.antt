-- ===== src/Ingestion/Semantic/Entities/Laws.antt =====
-- The entities of a text.
use eal_sync.Prelude.{
  ℕ, ◌≤◌, ◌<◌, ◌≡◌, refl, true, false, not, ◌&&◌, List, [], ◌∷◌, ◌++◌, length, length-append, leb,
  ◌==◌, All, All-append, arith, Bool-cases, inl, inr,
}
use eal_sync.Prelude.Text.{Text, codes}
use eal_sync.Prelude.Search.{join_texts, split_whitespace}
use eal_sync.Ingestion.Semantic.Chars.{CharTable}
use eal_sync.Ingestion.Semantic.Ranking.Counts.{add_count-All}
use eal_sync.Ingestion.Semantic.Ranking.Laws.{length-take_ranked, take_ranked-All}
use eal_sync.Ingestion.Semantic.Entities.{
  is_common_sentence_lead, flush_entity, is_entity_token, trim_token, count_entities,
  extract_entities,
}

module _ (table : CharTable) where
  abbrev pub IsEntityToken : Text → Type 0
  IsEntityToken token = is_entity_token table token ≡ true

  -- One to five tokens with single spaces between them.
  abbrev pub IsEntity : Text → Type 0
  IsEntity entity =
      (phrase : List Text) × (1 ≤ length phrase)
      × (length phrase ≤ 5)
      × All IsEntityToken phrase
      × (entity ≡ join_texts (codes " ") phrase)
      × (3 ≤ length entity)
      × (is_common_sentence_lead entity ≡ false)

  abbrev AllEntities : List (Text × ℕ) → Type 0
  AllEntities counts = All (λ (entry : Text × ℕ). IsEntity entry.0) counts

  flush_entity-All :
      (phrase : List Text) (counts : List (Text × ℕ))
      → length phrase ≤ 5
      → All IsEntityToken phrase
      → AllEntities counts
      → AllEntities (flush_entity phrase counts)
  unfolding flush_entity
  flush_entity-All [] counts few tokens h = h
  flush_entity-All (token ∷ phrase) counts few tokens h =
      let candidate = join_texts (codes " ") (token ∷ phrase) in
      elim (Bool-cases (leb 3 (length candidate) && not (is_common_sentence_lead candidate))) [
        | inl right ↦
            let long : 3 ≤ length candidate = ground (arith, right) in
            let no_lead : is_common_sentence_lead candidate ≡ false = ground (arith, right) in
            rw right (
              add_count-All IsEntity candidate counts
                (token ∷ phrase, omega arith, few, tokens, refl, long, no_lead) h)
        | inr wrong ↦ rw wrong h
      ]

  count_entities-All :
      (phrase : List Text) (counts : List (Text × ℕ)) (words : List Text)
      → length phrase < 5
      → All IsEntityToken phrase
      → AllEntities counts
      → AllEntities (count_entities table phrase counts words)
  unfolding count_entities
  count_entities-All phrase counts [] few tokens h =
      flush_entity-All phrase counts (omega (arith, few)) tokens h
  count_entities-All phrase counts (raw ∷ words) few tokens h =
      let token = trim_token table raw in
      let grown = phrase ++ token ∷ [] in
      let size = length-append phrase (token ∷ []) in
      elim (Bool-cases (is_entity_token table token)) [
        | inl hit ↦
            let all_tokens = All-append IsEntityToken phrase (token ∷ []) tokens (hit, tt) in
            elim (Bool-cases (length grown == 5)) [
              | inl full ↦
                  rw (hit, full)
                    (count_entities-All [] (flush_entity grown counts) words (omega arith) tt
                      (flush_entity-All grown counts (omega (arith, few, size)) all_tokens h))
              | inr room ↦
                  rw (hit, room)
                    (count_entities-All grown counts words (ground (arith, few, size, room))
                      all_tokens h)
            ]
        | inr miss ↦ rw miss (
            count_entities-All [] (flush_entity phrase counts) words (omega arith) tt
              (flush_entity-All phrase counts (omega (arith, few)) tokens h))
      ]

  -- The entities of a text are at most as many as asked for, and each is one to five tokens that look
  -- like names, has at least three characters, and is no common first word of a sentence.
  extract_entities_sound :
      (text : Text) (limit : ℕ)
      → (length (extract_entities table text limit) ≤ limit)
        × All IsEntity (extract_entities table text limit)
  unfolding extract_entities
  extract_entities_sound text limit =
      let counts = count_entities table [] [] (split_whitespace text) in
      (
        length-take_ranked counts limit,
        take_ranked-All IsEntity counts limit
            (count_entities-All [] [] (split_whitespace text) (omega arith) tt tt),
      )
